-- ===== src/Partitions/Reserve.antt =====
-- `reserve_code` of application/partition_service.py: one user holds a code at a time.
use sakura_embyboss.Prelude.{
  List, ◌∷◌, sym, subst, some_inj, All, first-replace_other, ◌+◌, ◌<◌, ℤ, String, true, false, ◌≡◌,
  refl, ◌∙◌, ap, inl, inr, some, [], ◌==◌, eq_string, eq_int, first, replace, first_holds,
  first-replace_self, Bool-cases, Option-cases, arith,
}
use text.Mathlib.TextEquality.{eq_iff}
use sakura_embyboss.Exec.{
  bind_ok, bind_err, Exec, settle, err, Error, integrity_error, Result, ok, ok_inj,
}
use sakura_embyboss.Database.{
  Db, DateTime, Actor, ServiceResult, result, is_ok, Emby, get_user, PartitionCode,
}
use sakura_embyboss.Operations.{audit}
use sakura_embyboss.Partitions.{
  log_reserved, clashing_token, save_reserved, reservation_ttl, is_code, get_partition_code,
  with_account, is_stale_since, is_owner, reserved_row, take_code, stands, reserve_code,
}

-- What `reserve_code` leaves: nothing new, or the code reserved by the caller.
pub data Reserved (value : String) (tg : ℤ) (now : DateTime) (token : String) (before : Db)
    : Result ServiceResult × Db → Type 0 where
  refused :
      (r : ServiceResult) → is_ok r ≡ false → Reserved value tg now token before (ok r, before)
  repeated :
      (r : ServiceResult) → r.replayed ≡ true → Reserved value tg now token before (ok r, before)
  lost : (e : Error) → Reserved value tg now token before (err e, before)
  taken :
      (r : ServiceResult) (c : PartitionCode) (after : Db)
      → get_partition_code value before ≡ some c
      → stands now c ≡ false
      → after.users ≡ before.users
      → after.partition_codes
        ≡ replace (is_code c.code) (reserved_row tg now token c) before.partition_codes
      → Reserved value tg now token before (ok r, after)

module _ (fingerprint : String → String) (value : String) (tg : ℤ) (actor : Actor) (now : DateTime)
    (token : String) (db : Db) where
  abbrev call : Result ServiceResult × Db
  call = reserve_code fingerprint value tg actor now token db

  take_code-Reserved :
      (user : Emby) (c : PartitionCode)
      → get_partition_code value db ≡ some c
      → stands now c ≡ false
      → let out = take_code fingerprint value tg actor now token user c db in
        Reserved value tg now token db (settle out.0 db out.1)
  unfolding take_code save_reserved log_reserved audit
  take_code-Reserved user c f h =
      elim (Option-cases (first (clashing_token token c.code) db.partition_codes)) [
        | inl k ↦
            let s = record db {
              partition_codes = replace (is_code c.code) row db.partition_codes;
            } in
            let saved : save_reserved token row db ≡ (ok tt, s) = rw k refl in
            subst settled (sym (bind_ok (save_reserved token row) logs db s tt saved))
              (taken _ c _ f h refl refl)
        | inr (other, k) ↦
            let saved : save_reserved token row db ≡ (err integrity_error, db) = rw k refl in
            subst settled
              (sym (bind_err (save_reserved token row) logs db db integrity_error saved))
              (lost integrity_error)
      ]
    where
      row : PartitionCode
      row = reserved_row tg now token c

      logs : Unit {0} → Exec Db ServiceResult
      logs _ = log_reserved fingerprint value tg actor token user c

      settled : Result ServiceResult × Db → Type 0
      settled out = Reserved value tg now token db (settle out.0 db out.1)

  pub reserve_code-Reserved : Reserved value tg now token db call
  unfolding reserve_code
  reserve_code-Reserved = elim (Option-cases (with_account (get_user tg db))) [
    | inl e ↦ rw e (refused _ refl)
    | inr (user, e) ↦ elim (Option-cases (get_partition_code value db)) [
      | inl f ↦ rw (e, f) (refused _ refl)
      | inr (c, f) ↦ elim (Bool-cases (stands now c)) [
        | inl h ↦ elim (Bool-cases (is_owner tg c.reserved_by)) [
          | inl o ↦ rw (e, f, h, o) (repeated _ refl)
          | inr o ↦ rw (e, f, h, o) (refused _ refl)
        ]
        | inr h ↦ rw (e, f, h) (take_code-Reserved user c f h)
      ]
    ]
  ]

  -- A reservation of another user that is not older than five minutes.
  pub busy :
      (user : Emby) (c : PartitionCode)
      → with_account (get_user tg db) ≡ some user
      → get_partition_code value db ≡ some c
      → stands now c ≡ true
      → is_owner tg c.reserved_by ≡ false
      → call ≡ (ok (result "code_busy" []), db)
  unfolding reserve_code
  busy user c e f h o = rw (e, f, h, o) refl

clash : false ≡ true → ⊥
clash h = cc

-- An attempt of a user to reserve a code.
pub record Attempt : Type 0 where
  pub value : String
  pub tg : ℤ
  pub actor : Actor
  pub now : DateTime
  pub token : String

abbrev pub attempt_all : (String → String) → List Attempt → Db → Db
attempt_all fingerprint [] db = db
attempt_all fingerprint (a ∷ more) db =
    attempt_all fingerprint more (reserve_code fingerprint a.value a.tg a.actor a.now a.token db).1

-- Attempts of users other than `tg`, before a time.
abbrev pub AreOthers : ℤ → DateTime → List Attempt → Type 0
AreOthers tg limit = All (λ (a : Attempt). ((tg == a.tg) ≡ false) × (a.now < limit))

module _ (fingerprint : String → String) (value token : String) (tg : ℤ) (now : DateTime)
    (c : PartitionCode) where
  -- The code is reserved by the user since `now`, and the users are those of `db`.
  abbrev IsHeld : Db → Db → Type 0
  IsHeld db s =
      (get_partition_code value s ≡ some (reserved_row tg now token c)) × (s.users ≡ db.users)

  still_stands :
      (later : DateTime)
      → later < now + reservation_ttl
      → stands later (reserved_row tg now token c) ≡ true
  still_stands later soon =
      let fresh : is_stale_since later (some now) ≡ false = ground arith in rw fresh refl

  attempt-IsHeld :
      (a : Attempt) (db s : Db) (out : Result ServiceResult × Db)
      → (tg == a.tg) ≡ false
      → a.now < now + reservation_ttl
      → Reserved a.value a.tg a.now a.token s out
      → IsHeld db s
      → IsHeld db out.1
  attempt-IsHeld a db s _ apart soon (refused r bad) h = h
  attempt-IsHeld a db s _ apart soon (repeated r old) h = h
  attempt-IsHeld a db s _ apart soon (lost e) h = h
  attempt-IsHeld a db s _ apart soon (taken r d after found free users codes) (held, same) = (
    ap (first (is_code value)) codes
        ∙ first-replace_other (is_code d.code) (is_code value) (reserved_row a.tg a.now a.token d)
            s.partition_codes
            (λ x k. subst (λ i. (i == value) ≡ false) (sym ((eq_iff x.code d.code).0 k)) other)
            other
        ∙ held,
    users ∙ same,
  )
    where
      other : (d.code == value) ≡ false
      other = elim (Bool-cases (d.code == value)) [
        | inr e ↦ e
        | inl e ↦
            let key : d.code ≡ a.value =
              (eq_iff d.code a.value).0 (first_holds (is_code a.value) s.partition_codes found) in
            let it : get_partition_code value s ≡ some d =
              subst (λ i. get_partition_code i s ≡ some d) (sym key ∙ (eq_iff d.code value).0 e)
                found in
            let row : reserved_row tg now token c ≡ d = some_inj (sym held ∙ it) in
            let busy_still : stands a.now d ≡ true =
              subst (λ x. stands a.now x ≡ true) row (still_stands a.now soon) in
            absurd (clash (sym free ∙ busy_still))
      ]

  attempts-IsHeld :
      (more : List Attempt) (db s : Db)
      → AreOthers tg (now + reservation_ttl) more
      → IsHeld db s
      → IsHeld db (attempt_all fingerprint more s)
  attempts-IsHeld [] db s o h = h
  attempts-IsHeld (a ∷ more) db s ((apart, soon), o) h =
      let out = reserve_code fingerprint a.value a.tg a.actor a.now a.token s in
      attempts-IsHeld more db out.1 o (
        attempt-IsHeld a db s out apart soon
          (reserve_code-Reserved fingerprint a.value a.tg a.actor a.now a.token s) h)

-- After a reservation that is accepted, and is no repetition, other users do not get the code for five
-- minutes: whichever codes they try to reserve before these end, in whatever order and as long as
-- nothing but such attempts is called, each of them with an account who then tries the code is told
-- that it is busy, and changes nothing.
pub reservation_is_exclusive :
    (fingerprint : String → String) (value token token' : String) (tg tg' : ℤ)
    (actor actor' : Actor) (now later : DateTime) (db : Db) (r : ServiceResult) (user : Emby)
    (others : List Attempt)
    → (reserve_code fingerprint value tg actor now token db).0 ≡ ok r
    → is_ok r ≡ true
    → r.replayed ≡ false
    → (tg == tg') ≡ false
    → with_account (get_user tg' db) ≡ some user
    → later < now + reservation_ttl
    → AreOthers tg (now + reservation_ttl) others
    → let after =
        attempt_all fingerprint others (reserve_code fingerprint value tg actor now token db).1 in
      reserve_code fingerprint value tg' actor' later token' after
      ≡ (ok (result "code_busy" []), after)
reservation_is_exclusive fingerprint value token token' tg tg' actor actor' now later db r user
      others h good fresh apart known soon o =
    go (reserve_code fingerprint value tg actor now token db) h
      (reserve_code-Reserved fingerprint value tg actor now token db)
  where
    go :
        (out : Result ServiceResult × Db)
        → out.0 ≡ ok r
        → Reserved value tg now token db out
        → reserve_code fingerprint value tg' actor' later token'
            (attempt_all fingerprint others out.1)
          ≡ (ok (result "code_busy" []), attempt_all fingerprint others out.1)
    go _ e (refused r' bad) = cc (ap is_ok (ok_inj e))
    go _ e (repeated r' old) = cc (ap (λ (x : ServiceResult). x.replayed) (ok_inj e))
    go _ e (lost x) = cc
    go _ e (taken r' c after found free users codes) =
        let key : c.code ≡ value =
          (eq_iff c.code value).0 (first_holds (is_code value) db.partition_codes found) in
        let row = reserved_row tg now token c in
        let there : get_partition_code value after ≡ some row =
          ap (first (is_code value))
            (codes ∙ ap (λ k. replace (is_code k) row db.partition_codes) key)
          ∙ first-replace_self (is_code value) row db.partition_codes ((eq_iff c.code value).1 key)
              found in
        let last = attempt_all fingerprint others after in
        let (held, same) =
          attempts-IsHeld fingerprint value token tg now c others db after o (there, users) in
        let holds : stands later row ≡ true =
          still_stands fingerprint value token tg now c later soon in
        busy fingerprint value tg' actor' later token' last user row (rw same known) held holds
          apart
