-- ===== src/Partitions/Release.antt =====
-- `release_reservation` of application/partition_service.py: the holder gives a code back.
use sakura_embyboss.Prelude.{
  Bool, List, ◌∷◌, inl, inr, Bool-cases, arith, ℤ, String, true, false, ◌≡◌, refl, sym, subst, ◌∙◌,
  ap, none, some, [], ◌==◌, eq_string, eq_int, first, replace, first_holds, first-replace_self,
  first-replace_new, ==_refl,
}
use text.Mathlib.TextEquality.{eq_iff}
use sakura_embyboss.Exec.{Result, ok, ok_inj}
use sakura_embyboss.Database.{
  Db, DateTime, Actor, ServiceResult, result, is_ok, Emby, get_user, PartitionCode,
}
use sakura_embyboss.Operations.{audit}
use sakura_embyboss.Partitions.{
  log_reserved, clashing_token, save_reserved, is_code, get_partition_code, get_reservation,
  has_token, with_account, valid_reservation, reservation_data, reserved_row, take_code, stands,
  reserve_code, free_code, release_reservation,
}
use sakura_embyboss.Partitions.Reserve.{
  Reserved, refused, repeated, lost, taken, reserve_code-Reserved,
}

-- The code once it is given back.
abbrev freed_row : PartitionCode → PartitionCode
freed_row c = record c {
  status = "available";
  reserved_by = none;
  reserved_at = none;
  reservation_token = none;
}

-- What a release leaves: the code of the reservation without its holder.
release_held :
    (fingerprint : String → String) (token : String) (tg : ℤ) (actor : Actor) (reason : String)
    (db : Db) (c : PartitionCode)
    → valid_reservation tg (get_reservation token db) ≡ some c
    → let out = release_reservation fingerprint token tg actor reason db in
      (out.0 ≡ ok (result "ok" []))
      × (out.1.users ≡ db.users)
      × (out.1.partition_codes ≡ replace (is_code c.code) (freed_row c) db.partition_codes)
unfolding release_reservation free_code audit
release_held fingerprint token tg actor reason db c h = rw h (refl, refl, refl)

-- A code without a reservation goes to any user with an account.
reserve_free :
    (fingerprint : String → String) (value : String) (tg : ℤ) (actor : Actor) (now : DateTime)
    (token : String) (db : Db) (user : Emby) (c : PartitionCode)
    → with_account (get_user tg db) ≡ some user
    → get_partition_code value db ≡ some c
    → stands now c ≡ false
    → first (clashing_token token c.code) db.partition_codes ≡ none
    → (reserve_code fingerprint value tg actor now token db).0
      ≡ ok (result "ok" (reservation_data token c user))
unfolding reserve_code take_code save_reserved log_reserved audit first
reserve_free fingerprint value tg actor now token db user c e f h k = rw (e, f, h, k) refl

first-weaker :
    (p q : PartitionCode → Bool) (xs : List PartitionCode)
    → ((x : PartitionCode) → q x ≡ true → p x ≡ true)
    → first p xs ≡ none
    → first q xs ≡ none
unfolding first
first-weaker p q [] k h = refl
first-weaker p q (x ∷ xs) k h = ground (arith, k x, first-weaker p q xs k)

first-replace-none :
    (p q : PartitionCode → Bool) (v : PartitionCode) (xs : List PartitionCode)
    → q v ≡ false
    → first q xs ≡ none
    → first q (replace p v xs) ≡ none
unfolding first replace
first-replace-none p q v [] k h = refl
first-replace-none p q v (x ∷ xs) k h = ground (arith, first-replace-none p q v xs k)

replace-replace :
    (p : PartitionCode → Bool) (v w : PartitionCode) (xs : List PartitionCode)
    → p w ≡ true
    → replace p v (replace p w xs) ≡ replace p v xs
unfolding replace
replace-replace p v w [] h = refl
replace-replace p v w (x ∷ xs) h = elim (Bool-cases (p x)) [
  | inl e ↦ rw (e, h) refl
  | inr e ↦ rw e (rw e (ap (λ ys. x ∷ ys) (replace-replace p v w xs h)))
]

-- After a user has newly reserved a code under a token that no code bears, a release with that token
-- by another user is refused and changes nothing, and the release by the holder is accepted. After
-- the holder's release the other user, who has an account, is given the code at any time, under the
-- token of that call, which no code bore at the start.
pub released_is_free :
    (fingerprint : String → String) (value token token' reason : String) (tg tg' : ℤ)
    (actor actor' : Actor) (now later : DateTime) (db : Db) (r : ServiceResult) (user : Emby)
    → get_reservation token db ≡ none
    → get_reservation token' db ≡ none
    → (reserve_code fingerprint value tg actor now token db).0 ≡ ok r
    → is_ok r ≡ true
    → r.replayed ≡ false
    → (tg == tg') ≡ false
    → with_account (get_user tg' db) ≡ some user
    → let held = (reserve_code fingerprint value tg actor now token db).1 in
      let out = release_reservation fingerprint token tg actor reason held in
      (release_reservation fingerprint token tg' actor' reason held
        ≡ (ok (result "reservation_invalid" []), held))
      × (out.0 ≡ ok (result "ok" []))
      × ((c : PartitionCode) × (get_partition_code value db ≡ some c)
          × ((reserve_code fingerprint value tg' actor' later token' out.1).0
              ≡ ok (result "ok" (reservation_data token' c user))))
unfolding release_reservation
released_is_free fingerprint value token token' reason tg tg' actor actor' now later db r user new
      new' h good fresh apart known =
    go (reserve_code fingerprint value tg actor now token db) h
      (reserve_code-Reserved fingerprint value tg actor now token db)
  where
    go :
        (out : Result ServiceResult × Db)
        → out.0 ≡ ok r
        → Reserved value tg now token db out
        → (release_reservation fingerprint token tg' actor' reason out.1
            ≡ (ok (result "reservation_invalid" []), out.1))
          × ((release_reservation fingerprint token tg actor reason out.1).0 ≡ ok (result "ok" []))
          × ((c : PartitionCode) × (get_partition_code value db ≡ some c)
              × ((reserve_code fingerprint value tg' actor' later token'
                    (release_reservation fingerprint token tg actor reason out.1).1).0
                  ≡ ok (result "ok" (reservation_data token' c user))))
    go _ e (refused r' bad) = cc (ap is_ok (ok_inj e))
    go _ e (repeated r' old) = cc (ap (λ (x : ServiceResult). x.replayed) (ok_inj e))
    go _ e (lost x) = cc
    go _ e (taken r' c after found was_free users codes) =
        let key : c.code ≡ value =
          (eq_iff c.code value).0 (first_holds (is_code value) db.partition_codes found) in
        let row = reserved_row tg now token c in
        let held : get_reservation token after ≡ some row =
          ap (first (has_token token)) codes
          ∙ first-replace_new (is_code c.code) (has_token token) row db.partition_codes
              ((eq_iff token token).1 refl) new
              (subst (λ k. first (is_code k) db.partition_codes ≡ some c) (sym key) found) in
        let there : get_partition_code value after ≡ some row =
          ap (first (is_code value))
            (codes ∙ ap (λ k. replace (is_code k) row db.partition_codes) key)
          ∙ first-replace_self (is_code value) row db.partition_codes ((eq_iff c.code value).1 key)
              found in
        let mine : (tg == tg) ≡ true = ==_refl tg in
        let valid : valid_reservation tg (get_reservation token after) ≡ some row =
          rw (held, mine) refl in
        let (accepted, same, freed) =
          release_held fingerprint token tg actor reason after row valid in
        let free = (release_reservation fingerprint token tg actor reason after).1 in
        let back : get_partition_code value free ≡ some (freed_row row) =
          ap (first (is_code value))
            (freed ∙ ap (λ k. replace (is_code k) (freed_row row) after.partition_codes) key)
          ∙ first-replace_self (is_code value) (freed_row row) after.partition_codes
              ((eq_iff c.code value).1 key) there in
        let unused : get_reservation token' free ≡ none =
          ap (first (has_token token')) (
            freed
            ∙ ap (replace (is_code c.code) (freed_row row)) codes
            ∙ replace-replace (is_code c.code) (freed_row row) row db.partition_codes
                (==_refl c.code))
          ∙ first-replace-none (is_code c.code) (has_token token') (freed_row row)
              db.partition_codes refl new' in
        let no_clash : first (clashing_token token' c.code) free.partition_codes ≡ none =
          first-weaker (has_token token') (clashing_token token' c.code) free.partition_codes
            (λ x k. ground arith) unused in
        (
          rw (held, apart) refl,
          accepted,
          (
            c,
            found,
            reserve_free fingerprint value tg' actor' later token' free user (freed_row row)
                (rw (same, users) known) back refl no_clash,
          ),
        )
