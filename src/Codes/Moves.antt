-- ===== src/Codes/Moves.antt =====
-- What a call of `_redeem` in application/code_service.py does to the table of codes.
use sakura_embyboss.Prelude.{
  ℤ, or_zero, String, Bool, false, ◌≡◌, refl, sym, subst, ◌∙◌, ◌⊎◌, inl, inr, Option, none, some,
  [], ◌∷◌, eq_string, if◌then◌else◌, replace, Bool-cases, Option-cases, is_some,
}
use sakura_embyboss.Exec.{
  Exec, Result, ok, err, integrity_error, overflow_error, pure, settle, bind_ok, bind_err,
}
use sakura_embyboss.Database.{
  Db, Fields, ServiceResult, result, num, text, to_dict, Emby, Code, has_tg, has_code, get_code,
  by_legacy_tg, get_user,
}
use sakura_embyboss.Operations.{
  audit, event, point_transaction, save_idempotent_result, account_id_of, find_saved,
}
use sakura_embyboss.Operations.Booking.{Raises, booked, point_transaction_cases, save_cases}
use sakura_embyboss.Points.{has_level}
use sakura_embyboss.Points.Posted.{on_user_missing, on_user_replay, on_user_body}
use sakura_embyboss.Codes.{Kind, kind_name, int_value, registration, renewal, whitelist, is_over}
use sakura_embyboss.Codes.Redeem.{
  account_denied, is_blocked, used_row, expired_row, add_days, Redemption, redeem_scope,
  log_redeemed, use_code, registration_posting, redeem_whitelist, is_foreign, with_days,
  redeem_registration, current_ex, has_lapsed, renew_until, redeem_renewal, redeem_open,
  redeem_found, redeem_user, redeem,
}
use sakura_embyboss.Codes.Answers.{is_accepted, add_days_cases, denied, replayed_refused}

-- What a successful run leaves of the codes: no change, one expired code, or one used code. The
-- code that changes was not used before.
pub data Moved (call : Redemption) (before : Db) (accepted : Bool) (after : Db) : Type 0 where
  stays : accepted ≡ false → after.codes ≡ before.codes → Moved call before accepted after
  lapses :
      (c : Code)
      → accepted ≡ false
      → get_code call.code_value before ≡ some c
      → c.used ≡ none
      → after.codes ≡ replace (has_code c.code) (expired_row c) before.codes
      → Moved call before accepted after
  uses :
      (c : Code) (account_id : Option String)
      → get_code call.code_value before ≡ some c
      → c.used ≡ none
      → after.codes
        ≡ replace (has_code c.code) (used_row call.tg call.now account_id c) before.codes
      → Moved call before accepted after

-- The same of a run that may raise; what it wrote is then rolled back.
abbrev pub Outcome : Redemption → Db → Result ServiceResult × Db → Type 0
Outcome call before (err e, s) = Unit
Outcome call before (ok r, s) = Moved call before (is_accepted r) s

abbrev pub Settled : Redemption → Db → Result ServiceResult × Db → Type 0
Settled call before (err e, s) = s.codes ≡ before.codes
Settled call before (ok r, s) = Moved call before (is_accepted r) s

settle-Settled :
    (call : Redemption) (before : Db) (out : Result ServiceResult × Db)
    → Outcome call before out
    → Settled call before (settle out.0 before out.1)
settle-Settled call before (err e, s) h = refl
settle-Settled call before (ok r, s) h = h

is_none : (o : Option ℤ) → is_some o ≡ false → o ≡ none
is_none none h = refl
is_none (some x) h = cc

module _ (fingerprint : String → String) (call : Redemption) (db : Db) where
  abbrev saves : Fields → Exec Db (Unit {0})
  saves fields =
      save_idempotent_result (redeem_scope call.kind) call.idempotency_key
        (to_dict (result "ok" fields))

  abbrev logged : Code → Db → Db
  logged c s =
      (event "code.redeemed" "registration_code" (some (fingerprint call.code_value))
        (("tg", num call.tg) ∷ ("kind", text (kind_name call.kind)) ∷ [])
        (audit call.actor (redeem_scope call.kind) "registration_code"
          (some (fingerprint call.code_value)) "success"
          (some (("tg", num call.tg) ∷ ("issuer_tg", int_value c.tg) ∷ [])) s).1).1

  log_redeemed-codes :
      (c : Code) (fields : Fields) (s : Db)
      → Raises (log_redeemed fingerprint call c fields s)
        ⊎ ((after : Db) × (log_redeemed fingerprint call c fields s
              ≡ (ok (result "ok" fields), after))
            × (after.codes ≡ s.codes))
  unfolding log_redeemed audit event
  log_redeemed-codes c fields s =
      elim (save_cases (redeem_scope call.kind) call.idempotency_key (to_dict (result "ok" fields))
        (logged c s)) [
          | inl (t, e) ↦
              inl (t, bind_err (saves fields) (λ _. pure (result "ok" fields)) (logged c s) t _ e)
          | inr e ↦
              inr (
                _,
                bind_ok (saves fields) (λ _. pure (result "ok" fields)) (logged c s) _ tt e,
                refl,
              )
        ]

  -- The end of a redemption, from a state with the codes of the start.
  use_code-Outcome :
      (c : Code) (fields : Fields) (s : Db)
      → get_code call.code_value db ≡ some c
      → c.used ≡ none
      → s.codes ≡ db.codes
      → Outcome call db (use_code fingerprint call c fields s)
  use_code-Outcome c fields s found free same =
      let a = account_id_of (by_legacy_tg call.tg s) in
      let s' = record s {
        codes = replace (has_code c.code) (used_row call.tg call.now a c) s.codes;
      } in
      elim (log_redeemed-codes c fields s') [
        | inl (t, e) ↦ subst (Outcome call db) (sym e) tt
        | inr (t, e, kept) ↦
            subst (Outcome call db) (sym e) (uses c a found free (kept ∙ rw same refl))
      ]

  whitelist-Outcome :
      (user : Emby) (c : Code)
      → get_code call.code_value db ≡ some c
      → c.used ≡ none
      → Outcome call db (redeem_whitelist fingerprint call user c db)
  whitelist-Outcome user c found free = elim (Bool-cases (has_level user.lv "a")) [
    | inl h ↦ rw h (stays refl refl)
    | inr h ↦ rw h (use_code-Outcome c _ _ found free refl)
  ]

  registration-Outcome :
      (user : Emby) (c : Code)
      → get_code call.code_value db ≡ some c
      → c.used ≡ none
      → Outcome call db (redeem_registration fingerprint call user c db)
  registration-Outcome user c found free = elim (Bool-cases (is_foreign fingerprint call)) [
    | inl h ↦ rw h (stays refl refl)
    | inr h ↦
        let p = registration_posting fingerprint call user c in
        let rest =
          use_code fingerprint call c
            (("issuer_tg", int_value c.tg) ∷ ("days", int_value c.us) ∷ []) in
        let s = record db {
          users = replace (has_tg user.tg) (with_days fingerprint call user c) db.users;
        } in
        rw h (elim (point_transaction_cases p s) [
          | inl (t, e) ↦
              subst (Outcome call db)
                (sym (bind_err (point_transaction p) (λ _. rest) s t integrity_error e)) tt
          | inr e ↦
              subst (Outcome call db)
                (sym (bind_ok (point_transaction p) (λ _. rest) s (booked p s) tt e))
                (use_code-Outcome c _ (booked p s) found free refl)
        ])
  ]

  renewal-Outcome :
      (user : Emby) (c : Code)
      → get_code call.code_value db ≡ some c
      → c.used ≡ none
      → Outcome call db (redeem_renewal fingerprint call user c db)
  renewal-Outcome user c found free =
      let t =
        if has_lapsed fingerprint call user then call.now else current_ex fingerprint call user in
      let n = or_zero c.us in
      elim (add_days_cases t n db) [
        | inl e ↦
            subst (Outcome call db)
              (sym (
                bind_err (add_days t n) (renew_until fingerprint call user c) db db overflow_error
                  e))
              tt
        | inr (until, e) ↦
            subst (Outcome call db)
              (sym (bind_ok (add_days t n) (renew_until fingerprint call user c) db db until e))
              (use_code-Outcome c _ _ found free refl)
      ]

  open-Outcome :
      (kind : Kind) (user : Emby) (c : Code)
      → get_code call.code_value db ≡ some c
      → c.used ≡ none
      → Outcome call db (redeem_open fingerprint call kind user c db)
  open-Outcome whitelist = whitelist-Outcome
  open-Outcome registration = registration-Outcome
  open-Outcome renewal = renewal-Outcome

  found-Outcome :
      (user : Emby) (o : Option Code)
      → get_code call.code_value db ≡ o
      → Outcome call db (redeem_found fingerprint call user o db)
  found-Outcome user none found = stays refl refl
  found-Outcome user (some c) found = elim (Bool-cases (is_some c.used)) [
    | inl h ↦ rw h (stays refl refl)
    | inr h ↦ elim (Bool-cases (is_blocked c.status)) [
      | inl b ↦ rw (h, b) (stays refl refl)
      | inr b ↦ elim (Bool-cases (is_over call.now c.expires_at)) [
        | inl x ↦ rw (h, b, x) (lapses c refl found (is_none c.used h) refl)
        | inr x ↦ rw (h, b, x) (open-Outcome call.kind user c found (is_none c.used h))
      ]
    ]
  ]

  user-Outcome : (user : Emby) → Outcome call db (redeem_user fingerprint call user db)
  unfolding redeem_user
  user-Outcome user = elim (Option-cases (account_denied call.kind user)) [
    | inl e ↦ rw e (found-Outcome user (get_code call.code_value db) refl)
    | inr (status, e) ↦ rw e (stays (denied call.kind user status e) refl)
  ]

  pub redeem-Settled : Settled call db (redeem fingerprint call db)
  unfolding redeem
  redeem-Settled = elim (Option-cases (get_user call.tg db)) [
    | inl e ↦
        subst (Settled call db)
          (sym (on_user_missing call.tg _ _ "no_user" (redeem_user fingerprint call) db e))
          (stays refl refl)
    | inr (user, e) ↦
        elim (Option-cases
          (find_saved (redeem_scope call.kind) call.idempotency_key db.idempotency)) [
            | inl f ↦
                subst (Settled call db)
                  (sym
                    (on_user_body call.tg _ _ "no_user" (redeem_user fingerprint call) db user e f))
                  (settle-Settled call db (redeem_user fingerprint call user db)
                    (user-Outcome user))
            | inr (saved, f) ↦
                subst (Settled call db)
                  (sym (
                    on_user_replay call.tg _ _ "no_user" (redeem_user fingerprint call) db user
                      saved e f))
                  (stays (replayed_refused saved) refl)
          ]
  ]
