-- ===== src/Codes/Days.antt =====
-- The days that a registration code gives, in `_redeem` of application/code_service.py.
use sakura_embyboss.Prelude.{
  or_zero, String, true, false, ◌≡◌, refl, sym, subst, ap, ◌⊎◌, inl, inr, Option, none, some, [],
  ◌∷◌, eq_string, eq_int, replace, Bool-cases, Option-cases, is_some,
}
use sakura_embyboss.Exec.{Result, ok, err, integrity_error, pure, settle, bind_ok, bind_err, ok_inj}
use sakura_embyboss.Database.{
  Db, Fields, ServiceResult, result, num, text, to_dict, Emby, Code, has_tg, has_code, get_code,
  get_user, by_legacy_tg,
}
use sakura_embyboss.Operations.{
  audit, event, point_transaction, save_idempotent_result, transaction_of, account_id_of,
  find_saved,
}
use sakura_embyboss.Operations.Booking.{
  Raises, booked, point_transaction_cases, save_cases, kept_record,
}
use sakura_embyboss.Points.{us}
use sakura_embyboss.Points.Posted.{Posted, on_user_missing, on_user_replay, on_user_body}
use sakura_embyboss.Points.Audit.{get_user-tg}
use sakura_embyboss.Codes.{registration, kind_name, int_value, is_over}
use sakura_embyboss.Codes.Redeem.{
  account_denied, is_blocked, used_row, Redemption, redeem_scope, log_redeemed, use_code,
  registration_posting, is_foreign, with_days, redeem_registration, redeem_open, redeem_found,
  redeem_user, redeem,
}
use sakura_embyboss.Codes.Answers.{is_accepted, denied, replayed_refused}

module _ (fingerprint : String → String) (call : Redemption) (db : Db) where
  -- The code that the call finds, and the posting of its days.
  abbrev pub Gives : Db → Type 0
  Gives after =
      (c : Code) × (get_code call.code_value db ≡ some c)
      × Posted db after call.tg us (or_zero c.us) (λ user. with_days fingerprint call user c)

  abbrev Outcome : Result ServiceResult × Db → Type 0
  Outcome (err e, s) = Unit
  Outcome (ok r, s) = (is_accepted r ≡ false) ⊎ Gives s

  settle-Outcome : (out : Result ServiceResult × Db) → Outcome out → Outcome (settle out.0 db out.1)
  settle-Outcome (err e, s) h = tt
  settle-Outcome (ok r, s) h = h

  abbrev pub logged : Code → Db → Db
  logged c s =
      (event "code.redeemed" "registration_code" (some (fingerprint call.code_value))
        (("tg", num call.tg) ∷ ("kind", text (kind_name call.kind)) ∷ [])
        (audit call.actor (redeem_scope call.kind) "registration_code"
          (some (fingerprint call.code_value)) "success"
          (some (("tg", num call.tg) ∷ ("issuer_tg", int_value c.tg) ∷ [])) s).1).1

  pub log_redeemed_cases :
      (c : Code) (fields : Fields) (s : Db)
      → let kept =
          kept_record
            (redeem_scope call.kind)
            call.idempotency_key
            (to_dict (result "ok" fields))
            s.idempotency in
        Raises (log_redeemed fingerprint call c fields s)
        ⊎ (log_redeemed fingerprint call c fields s
            ≡ (ok (result "ok" fields), record (logged c s) { idempotency = kept }))
  unfolding log_redeemed audit event
  log_redeemed_cases c fields s =
      let saves =
        save_idempotent_result (redeem_scope call.kind) call.idempotency_key
          (to_dict (result "ok" fields)) in
      elim (save_cases (redeem_scope call.kind) call.idempotency_key (to_dict (result "ok" fields))
        (logged c s)) [
          | inl (t, e) ↦ inl (t, bind_err saves (λ _. pure (result "ok" fields)) (logged c s) t _ e)
          | inr e ↦ inr (bind_ok saves (λ _. pure (result "ok" fields)) (logged c s) _ tt e)
        ]

  -- The outcome of the part for a code that may be used.
  abbrev pub Opened : Result ServiceResult × Db → Type 0
  Opened (err e, s) = Unit
  Opened (ok r, s) = ((is_accepted r ≡ false) × (s ≡ db)) ⊎ Gives s

  weaken : (out : Result ServiceResult × Db) → Opened out → Outcome out
  weaken (err e, s) h = tt
  weaken (ok r, s) (inl (bad, same)) = inl bad
  weaken (ok r, s) (inr gives) = inr gives

  pub registration-Opened :
      (user : Emby) (c : Code)
      → get_user call.tg db ≡ some user
      → get_code call.code_value db ≡ some c
      → Opened (redeem_registration fingerprint call user c db)
  unfolding audit event
  registration-Opened user c found code = elim (Bool-cases (is_foreign fingerprint call)) [
    | inl h ↦ rw h (inl (refl, refl))
    | inr h ↦
        let p = registration_posting fingerprint call user c in
        let fields = ("issuer_tg", int_value c.tg) ∷ ("days", int_value c.us) ∷ [] in
        let rest = use_code fingerprint call c fields in
        let user' = with_days fingerprint call user c in
        let s = record db { users = replace (has_tg user.tg) user' db.users } in
        let b = booked p s in
        let s' = record b {
          codes =
              replace (has_code c.code)
                (used_row call.tg call.now (account_id_of (by_legacy_tg call.tg b)) c) b.codes;
        } in
        rw h (elim (point_transaction_cases p s) [
          | inl (t, e) ↦
              subst Opened (sym (bind_err (point_transaction p) (λ _. rest) s t integrity_error e))
                tt
          | inr e ↦
              subst Opened (sym (bind_ok (point_transaction p) (λ _. rest) s b tt e))
                (elim (log_redeemed_cases c fields s') [
                  | inl (t, f) ↦ subst Opened (sym f) tt
                  | inr f ↦ subst Opened (sym f) (
                      inr (
                        c,
                        code,
                        record {
                          user = user;
                          user' = user';
                          entry = transaction_of db.next_transaction (by_legacy_tg call.tg s) p;
                          found = found;
                          changed = refl;
                          same_tg = refl;
                          users = refl;
                          moved = refl;
                          others = refl;
                          transactions = refl;
                          entry_tg = sym (get_user-tg call.tg db user found);
                          entry_type = refl;
                          entry_amount = refl;
                          entry_after = refl;
                          accounts = refl;
                          wallets = rw (get_user-tg call.tg db user found) refl;
                        },
                      ))
                ])
        ])
  ]

  found-Outcome :
      (user : Emby) (o : Option Code)
      → call.kind ≡ registration
      → get_user call.tg db ≡ some user
      → get_code call.code_value db ≡ o
      → Outcome (redeem_found fingerprint call user o db)
  found-Outcome user none kind found code = inl refl
  found-Outcome user (some c) kind found code = elim (Bool-cases (is_some c.used)) [
    | inl h ↦ rw h (inl refl)
    | inr h ↦ elim (Bool-cases (is_blocked c.status)) [
      | inl b ↦ rw (h, b) (inl refl)
      | inr b ↦ elim (Bool-cases (is_over call.now c.expires_at)) [
        | inl x ↦ rw (h, b, x) (inl refl)
        | inr x ↦
            rw (h, b, x)
              (subst (λ k. Outcome (redeem_open fingerprint call k user c db)) (sym kind)
                (weaken (redeem_registration fingerprint call user c db)
                  (registration-Opened user c found code)))
      ]
    ]
  ]

  user-Outcome :
      (user : Emby)
      → call.kind ≡ registration
      → get_user call.tg db ≡ some user
      → Outcome (redeem_user fingerprint call user db)
  unfolding redeem_user
  user-Outcome user kind found = elim (Option-cases (account_denied call.kind user)) [
    | inl e ↦ rw e (found-Outcome user (get_code call.code_value db) kind found refl)
    | inr (status, e) ↦ rw e (inl (denied call.kind user status e))
  ]

  redeem-Outcome : call.kind ≡ registration → Outcome (redeem fingerprint call db)
  unfolding redeem
  redeem-Outcome kind = elim (Option-cases (get_user call.tg db)) [
    | inl e ↦
        subst Outcome
          (sym (on_user_missing call.tg _ _ "no_user" (redeem_user fingerprint call) db e))
          (inl refl)
    | inr (user, e) ↦
        elim (Option-cases
          (find_saved (redeem_scope call.kind) call.idempotency_key db.idempotency)) [
            | inl f ↦
                subst Outcome
                  (sym
                    (on_user_body call.tg _ _ "no_user" (redeem_user fingerprint call) db user e f))
                  (settle-Outcome (redeem_user fingerprint call user db) (user-Outcome user kind e))
            | inr (saved, f) ↦
                subst Outcome
                  (sym (
                    on_user_replay call.tg _ _ "no_user" (redeem_user fingerprint call) db user
                      saved e f))
                  (inl (replayed_refused saved))
          ]
  ]

  -- An accepted redemption of a registration code is one posting: the days of its user grow by the
  -- days of the code, the coins and the other users stay, the transaction is on record, and the
  -- wallet of the user's account has the new balance.
  pub registration_posts_days :
      (r : ServiceResult)
      → call.kind ≡ registration
      → (redeem fingerprint call db).0 ≡ ok r
      → is_accepted r ≡ true
      → Gives (redeem fingerprint call db).1
  registration_posts_days r kind h good = go (redeem fingerprint call db) h (redeem-Outcome kind)
    where
      go : (out : Result ServiceResult × Db) → out.0 ≡ ok r → Outcome out → Gives out.1
      go (err e, s) q o = cc
      go (ok r', s) q (inl bad) = cc (ap is_accepted (ok_inj q))
      go (ok r', s) q (inr gives) = gives
