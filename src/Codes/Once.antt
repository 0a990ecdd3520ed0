-- ===== src/Codes/Once.antt =====
-- A code of application/code_service.py is used at most once.
use sakura_embyboss.Prelude.{
  ℕ, ◌+◌, ◌≤◌, String, Bool, true, false, ◌&&◌, ◌≡◌, refl, subst, ◌∙◌, ap, inl, inr, Option, none,
  some, List, [], ◌∷◌, ◌==◌, eq_string, if◌then◌else◌, first, replace, first_holds,
  first-replace_self, first-replace_other, Bool-cases, arith, is_some,
}
use text.Mathlib.TextEquality.{eq_iff}
use sakura_embyboss.Exec.{Result, ok, err}
use sakura_embyboss.Database.{Db, ServiceResult, Code, has_code, get_code}
use sakura_embyboss.Codes.Redeem.{used_row, expired_row, Redemption, redeem}
use sakura_embyboss.Codes.Answers.{is_accepted}
use sakura_embyboss.Codes.Moves.{Moved, stays, lapses, uses, Settled, redeem-Settled}

-- One if the code of this text may still be used.
abbrev pub room : Option Code → ℕ
room none = 1
room (some c) = if is_some c.used then 0 else 1

abbrev pub accepted_in : Result ServiceResult → Bool
accepted_in (err e) = false
accepted_in (ok r) = is_accepted r

-- One for an accepted redemption of this code.
abbrev pub win : String → Redemption → Bool → ℕ
win value call accepted = if (call.code_value == value) && accepted then 1 else 0

abbrev pub redeem_all : (String → String) → List Redemption → Db → Db
redeem_all fingerprint [] db = db
redeem_all fingerprint (c ∷ cs) db = redeem_all fingerprint cs (redeem fingerprint c db).1

-- The number of accepted redemptions of a code in a run of calls.
abbrev pub wins : (String → String) → String → List Redemption → Db → ℕ
wins fingerprint value [] db = 0
wins fingerprint value (c ∷ cs) db =
    win value c (accepted_in (redeem fingerprint c db).0)
    + wins fingerprint value cs (redeem fingerprint c db).1

-- The row of a code after the row of `c`, which a call found, is replaced by `d`.
module _ (value : String) (call : Redemption) (c d : Code) (before : Db) (after : Db) where
  same_code : get_code call.code_value before ≡ some c → c.code ≡ call.code_value
  same_code found =
      (eq_iff c.code call.code_value).0 (first_holds (has_code call.code_value) before.codes found)

  here :
      get_code call.code_value before ≡ some c
      → d.code ≡ c.code
      → after.codes ≡ replace (has_code c.code) d before.codes
      → after.codes ≡ replace (has_code call.code_value) d before.codes
  here found same e = e ∙ ap (λ k. replace (has_code k) d before.codes) (same_code found)

  own : get_code call.code_value before ≡ some c → d.code ≡ c.code → d.code ≡ call.code_value
  own found same = same ∙ same_code found

  replaced_same :
      get_code call.code_value before ≡ some c
      → d.code ≡ c.code
      → after.codes ≡ replace (has_code c.code) d before.codes
      → (call.code_value == value) ≡ true
      → get_code value after ≡ some d
  replaced_same found same e v =
      let hit : has_code call.code_value d ≡ true =
        (eq_iff d.code call.code_value).1 (own found same) in
      subst (λ k. get_code k after ≡ some d) ((eq_iff call.code_value value).0 v)
        (ap (first (has_code call.code_value)) (here found same e)
          ∙ first-replace_self (has_code call.code_value) d before.codes hit found)

  replaced_other :
      get_code call.code_value before ≡ some c
      → d.code ≡ c.code
      → after.codes ≡ replace (has_code c.code) d before.codes
      → (call.code_value == value) ≡ false
      → get_code value after ≡ get_code value before
  replaced_other found same e v =
      let miss : (k : String) → k ≡ call.code_value → (k == value) ≡ false = λ k q. rw q v in
      ap (first (has_code value)) (here found same e)
      ∙ first-replace_other (has_code call.code_value) (has_code value) d before.codes
          (λ x hx. miss x.code ((eq_iff x.code call.code_value).0 hx))
          (miss d.code (own found same))

-- An accepted redemption uses the room of its code up, and no call makes any.
abbrev Spends : String → Redemption → Db → Bool → Db → Type 0
Spends value call before accepted after =
    win value call accepted + room (get_code value after) ≤ room (get_code value before)

win_none :
    (value : String) (call : Redemption) (accepted : Bool)
    → accepted ≡ false
    → win value call accepted ≡ 0
win_none value call accepted h = elim (Bool-cases (call.code_value == value)) [
  | inl v ↦ rw (v, h) refl
  | inr v ↦ rw v refl
]

win_most : (value : String) (call : Redemption) (accepted : Bool) → win value call accepted ≤ 1
win_most value call accepted = elim (Bool-cases ((call.code_value == value) && accepted)) [
  | inl v ↦ rw v (omega arith)
  | inr v ↦ rw v (omega arith)
]

found_room :
    (value : String) (call : Redemption) (db : Db) (c : Code)
    → get_code call.code_value db ≡ some c
    → c.used ≡ none
    → (call.code_value == value) ≡ true
    → room (get_code value db) ≡ 1
found_room value call db c found free v =
    let q = (eq_iff call.code_value value).0 v in
    subst (λ k. room (get_code k db) ≡ 1) q (ap room found ∙ rw free refl)

Moved-Spends :
    (value : String) (call : Redemption) (before : Db) (accepted : Bool) (after : Db)
    → Moved call before accepted after
    → Spends value call before accepted after
Moved-Spends value call before accepted after (stays h same) =
    rw (win_none value call accepted h, same) (omega arith)
Moved-Spends value call before accepted after (lapses c h found free e) =
    elim (Bool-cases (call.code_value == value)) [
      | inl v ↦
          rw
            (
              win_none value call accepted h,
              found_room value call before c found free v,
              replaced_same value call c (expired_row c) before after found refl e v,
              free,
            )
            (omega arith)
      | inr v ↦
          rw (v, replaced_other value call c (expired_row c) before after found refl e v)
            (omega arith)
    ]
Moved-Spends value call before accepted after (uses c a found free e) =
    elim (Bool-cases (call.code_value == value)) [
      | inl v ↦
          rw
            (
              found_room value call before c found free v,
              replaced_same value call c (used_row call.tg call.now a c) before after found refl e
                  v,
            )
            (omega (arith, win_most value call accepted))
      | inr v ↦
          rw
            (
              v,
              replaced_other value call c (used_row call.tg call.now a c) before after found refl e
                  v,
            )
            (omega arith)
    ]

Settled-Spends :
    (value : String) (call : Redemption) (before : Db) (out : Result ServiceResult × Db)
    → Settled call before out
    → Spends value call before (accepted_in out.0) out.1
Settled-Spends value call before (err e, s) same =
    rw (win_none value call false refl, same) (omega arith)
Settled-Spends value call before (ok r, s) m = Moved-Spends value call before (is_accepted r) s m

-- In any run of redemptions, of any kinds and by any users, the accepted redemptions of a code are
-- at most one, and none if the code was used before.
pub redeemed_once :
    (fingerprint : String → String) (value : String) (calls : List Redemption) (db : Db)
    → wins fingerprint value calls db ≤ room (get_code value db)
redeemed_once fingerprint value [] db = omega arith
redeemed_once fingerprint value (c ∷ cs) db = omega (
  arith,
  Settled-Spends value c db (redeem fingerprint c db) (redeem-Settled fingerprint c db),
  redeemed_once fingerprint value cs (redeem fingerprint c db).1,
)
