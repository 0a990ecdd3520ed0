-- ===== src/Partitions/Redeem.antt =====
-- `complete_redemption` of application/partition_service.py: a reservation is redeemed once.
use sakura_embyboss.Prelude.{
  ℕ, ◌+◌, arith, ℤ, String, true, false, ◌≡◌, refl, sym, subst, ◌∙◌, ap, ◌⊎◌, inl, inr, Option,
  none, some, [], ◌∷◌, ◌==◌, eq_string, eq_int, Bool-cases, Option-cases, str_append, str_int,
}
use Prim.Native.String.{len}
use package.text.Mathlib.TextPositions.{len-append}
use package.text.Mathlib.TextEquality.{eq_iff}
use sakura_embyboss.Exec.{
  Result, ok, err, integrity_error, overflow_error, pure, settle, bind_ok, bind_err, ok_inj,
}
use sakura_embyboss.Database.{
  Db, DateTime, Actor, ServiceResult, result, num, text, time, to_dict, from_dict, Emby, get_user,
  PartitionCode,
}
use sakura_embyboss.Operations.{audit, event, save_idempotent_result, find_saved}
use sakura_embyboss.Operations.Booking.{save_cases}
use sakura_embyboss.Points.Posted.{find_saved-kept}
use sakura_embyboss.Codes.Redeem.{add_days}
use sakura_embyboss.Codes.Answers.{is_accepted, replayed_refused, add_days_cases}
use sakura_embyboss.Partitions.{get_reservation, with_account, get_grant, valid_reservation}
use sakura_embyboss.PartitionGrants.{
  start_from, grant_until, complete_grant, redeem_scope, reservation_key, log_granted,
  redeem_reserved, complete_redemption,
}

key_set : (token : String) → (str_append "reservation:" token == "") ≡ false
key_set token = elim (Bool-cases (str_append "reservation:" token == "")) [
  | inr h ↦ h
  | inl h ↦
      let same : str_append "reservation:" token ≡ "" =
        (eq_iff (str_append "reservation:" token) "").0 h in
      let size : len (str_append "reservation:" token) ≡ 0 = ap len same in
      absurd (too_short (len token) (sym (len-append "reservation:" token) ∙ size))
]
  where
    too_short : (n : ℕ) → 12 + n ≡ 0 → ⊥
    too_short n h = omega arith

module _ (fingerprint : String → String) (token : String) (tg : ℤ) (actor : Actor)
    (now : DateTime) where
  abbrev Call : Db → Result ServiceResult × Db
  Call db = complete_redemption fingerprint token tg actor now db

  known_result :
      (db : Db) (user : Emby) (saved : ServiceResult)
      → with_account (get_user tg db) ≡ some user
      → find_saved redeem_scope (reservation_key token) db.idempotency ≡ some saved
      → Call db ≡ (ok (from_dict saved), db)
  unfolding complete_redemption
  known_result db user saved e f = rw (e, f) refl

  abbrev Kept : Db → Result ServiceResult × Db → Type 0
  Kept before (err e, s) = Unit
  Kept before (ok r, s) =
      (is_accepted r ≡ false)
      ⊎ ((s.users ≡ before.users)
          × (find_saved redeem_scope (reservation_key token) s.idempotency ≡ some (to_dict r)))

  settle-Kept :
      (before : Db) (out : Result ServiceResult × Db)
      → Kept before out
      → Kept before (settle out.0 before out.1)
  settle-Kept before (err e, s) h = tt
  settle-Kept before (ok r, s) h = h

  abbrev logged : PartitionCode → DateTime → Db → Db
  logged r expires_at s =
      (event "partition.changed" "user" (some (str_int tg))
        (("tg", num tg) ∷ ("partition", text r.partition) ∷ ("expires_at", time expires_at) ∷ [])
        (audit actor redeem_scope "partition_grant"
          (some (str_append (str_int tg) (str_append ":" r.partition))) "success"
          (some (
            ("tg", num tg)
            ∷ ("partition", text r.partition)
            ∷ ("code_fingerprint", text (fingerprint r.code))
            ∷ ("expires_at", time expires_at)
            ∷ []))
          s).1).1

  log_granted-Kept :
      (before s : Db) (r : PartitionCode) (expires_at : DateTime)
      → s.users ≡ before.users
      → Kept before (log_granted fingerprint token tg actor r expires_at s)
  unfolding log_granted audit event
  log_granted-Kept before s r expires_at same =
      let outcome =
        result "ok" (("partition", text r.partition) ∷ ("expires_at", time expires_at) ∷ []) in
      let saves = save_idempotent_result redeem_scope (reservation_key token) (to_dict outcome) in
      elim (save_cases redeem_scope (reservation_key token) (to_dict outcome)
        (logged r expires_at s)) [
          | inl (t, e) ↦
              subst (Kept before)
                (sym
                  (bind_err saves (λ _. pure outcome) (logged r expires_at s) t integrity_error e))
                tt
          | inr e ↦
              subst (Kept before)
                (sym (bind_ok saves (λ _. pure outcome) (logged r expires_at s) _ tt e))
                (inr (
                  same,
                  find_saved-kept redeem_scope (reservation_key token) outcome s.idempotency
                      ∙ rw (key_set token) refl,
                ))
        ]

  reserved-Kept :
      (db : Db) (user : Emby) (o : Option PartitionCode)
      → Kept db (redeem_reserved fingerprint token tg actor now user o db)
  unfolding complete_grant
  reserved-Kept db user none = inl refl
  reserved-Kept db user (some r) =
      let old = get_grant tg r.partition db in
      let start = start_from old now in
      elim (add_days_cases start r.duration_days db) [
        | inl e ↦
            let run =
              bind_err (add_days start r.duration_days) (grant_until r tg user now old) db db
                overflow_error e in
            subst (Kept db)
              (sym (
                bind_err (complete_grant r tg user now) (log_granted fingerprint token tg actor r)
                  db db overflow_error run))
              tt
        | inr (until, e) ↦
            let run =
              bind_ok (add_days start r.duration_days) (grant_until r tg user now old) db db until
                e in
            subst (Kept db)
              (sym (
                bind_ok (complete_grant r tg user now) (log_granted fingerprint token tg actor r) db
                  _ until run))
              (log_granted-Kept db _ r until refl)
      ]

  Call-Kept : (db : Db) → Kept db (Call db)
  unfolding complete_redemption
  Call-Kept db = elim (Option-cases (with_account (get_user tg db))) [
    | inl e ↦ rw e (refused db)
    | inr (user, e) ↦
        elim (Option-cases (find_saved redeem_scope (reservation_key token) db.idempotency)) [
          | inr (saved, f) ↦ rw (e, f) (repeated db saved)
          | inl f ↦
              rw (e, f)
                (settle-Kept db _
                  (reserved-Kept db user (valid_reservation tg (get_reservation token db))))
        ]
  ]
    where
      refused : (db : Db) → Kept db (ok (result "no_account" []), db)
      refused db = inl refl

      repeated : (db : Db) (saved : ServiceResult) → Kept db (ok (from_dict saved), db)
      repeated db saved = inl (replayed_refused saved)

  -- The same redemption of a reservation made twice: if the first one is accepted, the second one
  -- is answered with its result, marked as a repetition, and changes nothing: no code is used and
  -- no grant extended a second time. The user has an account.
  pub redemption_twice :
      (db : Db) (user : Emby) (r : ServiceResult)
      → with_account (get_user tg db) ≡ some user
      → (Call db).0 ≡ ok r
      → is_accepted r ≡ true
      → Call (Call db).1 ≡ (ok (from_dict (to_dict r)), (Call db).1)
  redemption_twice db user r known h good = go (Call db) h (Call-Kept db)
    where
      go :
          (out : Result ServiceResult × Db)
          → out.0 ≡ ok r
          → Kept db out
          → Call out.1 ≡ (ok (from_dict (to_dict r)), out.1)
      go (err e, s) q k = cc
      go (ok r', s) q (inl bad) = cc (ap is_accepted (ok_inj q))
      go (ok r', s) q (inr (users, saved)) =
          known_result s user (to_dict r) (rw users known)
            (saved ∙ ap (λ x. some (to_dict x)) (ok_inj q))
