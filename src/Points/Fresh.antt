-- ===== src/Points/Fresh.antt =====
-- New acceptances of the point service: they come from the body of `on_user`, run on the row of the
-- user (application/point_service.py).
use sakura_embyboss.Prelude.{
  ℤ, String, true, false, ◌≡◌, refl, sym, ◌∙◌, ap, inl, inr, Option, some, ◌==◌, eq_string,
  Option-cases,
}
use sakura_embyboss.Exec.{Exec, Result, ok, err, ok_inj, settle}
use sakura_embyboss.Database.{Db, ServiceResult, is_ok, Emby, get_user}
use sakura_embyboss.Operations.{find_saved}
use sakura_embyboss.Points.{on_user}
use sakura_embyboss.Points.Posted.{on_user_missing, on_user_replay, on_user_body}

-- An answer that is a new acceptance.
abbrev pub IsNew : ServiceResult → Type 0
IsNew r = (is_ok r ≡ true) × (r.replayed ≡ false)

settle-result : (out : Result ServiceResult × Db) (db : Db) → (settle out.0 db out.1).0 ≡ out.0
settle-result (ok r, s) db = refl
settle-result (err e, s) db = refl

-- A new acceptance comes from the body, run on the user's row.
module _ (tg : ℤ) (scope : String) (key : Option String) (missing : String)
    (body : Emby → Exec Db ServiceResult) (db : Db) (r : ServiceResult)
    (no_ok : (missing == "ok") ≡ false) (h : (on_user tg scope key missing body db).0 ≡ ok r)
    (new : IsNew r) where
  pub on_user_new : (u : Emby) × (get_user tg db ≡ some u) × ((body u db).0 ≡ ok r)
  on_user_new = elim (Option-cases (get_user tg db)) [
    | inl e ↦
        let here =
          ok_inj (sym (ap (λ x. x.0) (on_user_missing tg scope key missing body db e)) ∙ h) in
        cc (ap is_ok here, no_ok, new.0)
    | inr (u, e) ↦ elim (Option-cases (find_saved scope key db.idempotency)) [
      | inl f ↦ (
        u,
        e,
        sym (settle-result (body u db) db)
            ∙ sym (ap (λ x. x.0) (on_user_body tg scope key missing body db u e f))
            ∙ h,
      )
      | inr (saved, f) ↦
          let here =
            ok_inj
              (sym (ap (λ x. x.0) (on_user_replay tg scope key missing body db u saved e f)) ∙ h) in
          cc (ap (λ (x : ServiceResult). x.replayed) here, new.1)
    ]
  ]

-- An answer with another status is no acceptance.
pub not_ok :
    {x r : ServiceResult} {s : Result ServiceResult}
    → s ≡ ok x
    → is_ok x ≡ false
    → s ≡ ok r
    → is_ok r ≡ true
    → ⊥
not_ok e bad h good = cc (ap is_ok (ok_inj (sym e ∙ h)))
