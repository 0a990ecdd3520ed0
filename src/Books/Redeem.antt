-- ===== src/Books/Redeem.antt =====
-- What `_redeem` of application/code_service.py does to the books.
use sakura_embyboss.Prelude.{
  or_zero, String, ◌&&◌, ◌≡◌, refl, sym, subst, inl, inr, Option, none, some, eq_string, eq_int,
  if◌then◌else◌, replace, Bool-cases, Option-cases, is_some,
}
use sakura_embyboss.Exec.{Result, ok, err, overflow_error, settle, bind_ok, bind_err}
use sakura_embyboss.Database.{
  Db, Fields, DateTime, ServiceResult, Emby, Code, has_tg, has_code, get_code, get_user,
  by_legacy_tg,
}
use sakura_embyboss.Operations.{audit, event, account_id_of, find_saved}
use sakura_embyboss.Points.{Balance, iv, us, has_level}
use sakura_embyboss.Points.Posted.{balance, on_user_missing, on_user_replay, on_user_body}
use sakura_embyboss.Codes.{Kind, registration, whitelist, renewal, is_over}
use sakura_embyboss.Codes.Redeem.{
  account_denied, is_blocked, used_row, add_days, Redemption, redeem_scope, use_code, with_days,
  redeem_registration, redeem_whitelist, current_ex, has_lapsed, renew_until, redeem_renewal,
  redeem_open, redeem_found, redeem_user, redeem,
}
use sakura_embyboss.Codes.Answers.{add_days_cases}
use sakura_embyboss.Codes.Days.{log_redeemed_cases, Opened, registration-Opened}
use sakura_embyboss.Books.{Move, untouched, rewrites, posts}

pub nothing : (db : Db) → Move db db
nothing db =
    untouched (record { users = refl; transactions = refl; accounts = refl; wallets = refl })

module _ (fingerprint : String → String) (call : Redemption) (db : Db) where
  abbrev Outcome : Result ServiceResult × Db → Type 0
  Outcome (err e, s) = Unit
  Outcome (ok r, s) = Move db s

  settle-Outcome :
      (out : Result ServiceResult × Db) → Outcome out → Move db (settle out.0 db out.1).1
  settle-Outcome (err e, s) h = nothing db
  settle-Outcome (ok r, s) h = h

  -- The end of a redemption that has written one row of a user and no balance.
  rewriting :
      (user user' : Emby) (c : Code) (fields : Fields)
      → get_user call.tg db ≡ some user
      → user'.tg ≡ user.tg
      → ((field : Balance) → balance field user' ≡ balance field user)
      → Outcome (
          use_code fingerprint call c fields
            (record db { users = replace (has_tg user.tg) user' db.users }))
  unfolding audit event
  rewriting user user' c fields found same kept =
      let s = record db { users = replace (has_tg user.tg) user' db.users } in
      let s' = record s {
        codes =
            replace (has_code c.code)
              (used_row call.tg call.now (account_id_of (by_legacy_tg call.tg s)) c) s.codes;
      } in
      elim (log_redeemed_cases fingerprint call db c fields s') [
        | inl (t, f) ↦ subst Outcome (sym f) tt
        | inr f ↦ subst Outcome (sym f) (
            rewrites call.tg (record {
              user = user;
              user' = user';
              found = found;
              same_tg = same;
              kept = kept;
              users = refl;
              transactions = refl;
              accounts = refl;
              wallets = refl;
            }))
      ]

  whitelist-Outcome :
      (user : Emby) (c : Code)
      → get_user call.tg db ≡ some user
      → Outcome (redeem_whitelist fingerprint call user c db)
  whitelist-Outcome user c found = elim (Bool-cases (has_level user.lv "a")) [
    | inl h ↦ rw h (nothing db)
    | inr h ↦ rw h (
        rewriting user (record user { lv = some "a" }) c _ found refl (λ field. same_balance field))
  ]
    where
      same_balance :
          (field : Balance) → balance field (record user { lv = some "a" }) ≡ balance field user
      same_balance iv = refl
      same_balance us = refl

  renewal-Outcome :
      (user : Emby) (c : Code)
      → get_user call.tg db ≡ some user
      → Outcome (redeem_renewal fingerprint call user c db)
  renewal-Outcome user c found =
      let t =
        if has_lapsed fingerprint call user then call.now else current_ex fingerprint call user in
      let n = or_zero c.us in
      elim (add_days_cases t n db) [
        | inl e ↦
            subst Outcome
              (sym (
                bind_err (add_days t n) (renew_until fingerprint call user c) db db overflow_error
                  e))
              tt
        | inr (until, e) ↦
            subst Outcome
              (sym (bind_ok (add_days t n) (renew_until fingerprint call user c) db db until e))
              (elim (Bool-cases (has_lapsed fingerprint call user && has_level user.lv "c")) [
                | inl h ↦ rw h (
                    rewriting user (record user { ex = some until; lv = some "b" }) c _ found refl
                      (λ field. lifted until field))
                | inr h ↦ rw h (
                    rewriting user (record user { ex = some until }) c _ found refl
                      (λ field. extended until field))
              ])
      ]
    where
      lifted :
          (until : DateTime) (field : Balance)
          → balance field (record user { ex = some until; lv = some "b" }) ≡ balance field user
      lifted until iv = refl
      lifted until us = refl

      extended :
          (until : DateTime) (field : Balance)
          → balance field (record user { ex = some until }) ≡ balance field user
      extended until iv = refl
      extended until us = refl

  open-Outcome :
      (kind : Kind) (user : Emby) (c : Code)
      → get_user call.tg db ≡ some user
      → get_code call.code_value db ≡ some c
      → Outcome (redeem_open fingerprint call kind user c db)
  open-Outcome whitelist user c found code = whitelist-Outcome user c found
  open-Outcome renewal user c found code = renewal-Outcome user c found
  open-Outcome registration user c found code =
      go (redeem_registration fingerprint call user c db)
        (registration-Opened fingerprint call db user c found code)
    where
      go : (out : Result ServiceResult × Db) → Opened fingerprint call db out → Outcome out
      go (err e, s) h = tt
      go (ok r, s) (inl (bad, same)) = subst (Move db) (sym same) (nothing db)
      go (ok r, s) (inr (c', there, p)) =
          posts call.tg us (or_zero c'.us) (λ u. with_days fingerprint call u c') p

  found-Outcome :
      (user : Emby) (o : Option Code)
      → get_user call.tg db ≡ some user
      → get_code call.code_value db ≡ o
      → Outcome (redeem_found fingerprint call user o db)
  found-Outcome user none found code = nothing db
  found-Outcome user (some c) found code = elim (Bool-cases (is_some c.used)) [
    | inl h ↦ rw h (nothing db)
    | inr h ↦ elim (Bool-cases (is_blocked c.status)) [
      | inl b ↦ rw (h, b) (nothing db)
      | inr b ↦ elim (Bool-cases (is_over call.now c.expires_at)) [
        | inl x ↦
            rw (h, b, x)
              (untouched
                (record { users = refl; transactions = refl; accounts = refl; wallets = refl }))
        | inr x ↦ rw (h, b, x) (open-Outcome call.kind user c found code)
      ]
    ]
  ]

  user-Outcome :
      (user : Emby)
      → get_user call.tg db ≡ some user
      → Outcome (redeem_user fingerprint call user db)
  unfolding redeem_user
  user-Outcome user found = elim (Option-cases (account_denied call.kind user)) [
    | inl e ↦ rw e (found-Outcome user (get_code call.code_value db) found refl)
    | inr (status, e) ↦ rw e (nothing db)
  ]

  -- A redemption of any kind.
  pub redeem-Move : Move db (redeem fingerprint call db).1
  unfolding redeem
  redeem-Move = elim (Option-cases (get_user call.tg db)) [
    | inl e ↦
        subst At (sym (on_user_missing call.tg _ _ "no_user" (redeem_user fingerprint call) db e))
          (nothing db)
    | inr (user, e) ↦
        elim (Option-cases
          (find_saved (redeem_scope call.kind) call.idempotency_key db.idempotency)) [
            | inl f ↦
                subst At
                  (sym
                    (on_user_body call.tg _ _ "no_user" (redeem_user fingerprint call) db user e f))
                  (settle-Outcome (redeem_user fingerprint call user db) (user-Outcome user e))
            | inr (saved, f) ↦
                subst At
                  (sym (
                    on_user_replay call.tg _ _ "no_user" (redeem_user fingerprint call) db user
                      saved e f))
                  (nothing db)
          ]
  ]
    where
      At : Result ServiceResult × Db → Type 0
      At out = Move db out.1
