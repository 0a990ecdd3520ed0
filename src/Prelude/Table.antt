-- ===== src/Prelude/Table.antt =====
-- A table of the database as a list of rows, newest first: the row that a filter finds, and the
-- update of that row. The keys that the filters of the program test are unique in the schema.
use mathlib.Core.Path.{◌≡◌, refl}
use mathlib.Core.Bool.{Bool, true, false}
use mathlib.Core.Option.{Option, none, some}
use mathlib.Core.List.{List, [], ◌∷◌}
use Prim.Native.Nat.{ℕ, suc}
use native.Mathlib.Omega.{arith}
use sakura_embyboss.Prelude.Tests.{if◌then◌else◌}

module _ {ℓ} {A : Type ℓ} where
  abbrev pub length : List A → ℕ
  length [] = 0
  length (x ∷ xs) = suc (length xs)

  -- `query.filter(p).first()`
  unfoldable pub first : (A → Bool) → List A → Option A
  first p [] = none
  first p (x ∷ xs) = if p x then some x else first p xs

  -- The write of the changed row at the flush.
  unfoldable pub replace : (A → Bool) → A → List A → List A
  replace p v [] = []
  replace p v (x ∷ xs) = if p x then v ∷ xs else x ∷ replace p v xs

  pub first_holds : (p : A → Bool) (xs : List A) {a : A} → first p xs ≡ some a → p a ≡ true
  unfolding first
  first_holds p [] h = ground arith
  first_holds p (x ∷ xs) {a} h = ground (arith, first_holds p xs {a = a})

  pub first-replace_self :
      (p : A → Bool) (v : A) (xs : List A) {a : A}
      → p v ≡ true
      → first p xs ≡ some a
      → first p (replace p v xs) ≡ some v
  unfolding first replace
  first-replace_self p v [] hv h = ground arith
  first-replace_self p v (x ∷ xs) {a} hv h = ground (arith, first-replace_self p v xs {a = a} hv)

  -- A filter that no row of the updated kind passes sees the table as it was.
  pub first-replace_other :
      (p q : A → Bool) (v : A) (xs : List A)
      → ((x : A) → p x ≡ true → q x ≡ false)
      → q v ≡ false
      → first q (replace p v xs) ≡ first q xs
  unfolding first replace
  first-replace_other p q v [] apart hv = refl
  first-replace_other p q v (x ∷ xs) apart hv =
      ground (arith, apart x, first-replace_other p q v xs apart hv)

  -- A filter that only the written row passes finds that row.
  pub first-replace_new :
      (p q : A → Bool) (v : A) (xs : List A) {a : A}
      → q v ≡ true
      → first q xs ≡ none
      → first p xs ≡ some a
      → first q (replace p v xs) ≡ some v
  unfolding first replace
  first-replace_new p q v [] hv new h = ground arith
  first-replace_new p q v (x ∷ xs) {a} hv new h =
      ground (arith, first-replace_new p q v xs {a = a} hv)

  -- Two filters that find the same row, which is rewritten under one of them.
  pub first-replace_both :
      (p q : A → Bool) (v : A) (xs : List A) {a : A}
      → p v ≡ true
      → first p xs ≡ some a
      → first q xs ≡ some a
      → first p (replace q v xs) ≡ some v
  unfolding first replace
  first-replace_both p q v [] hv h k = ground arith
  first-replace_both p q v (x ∷ xs) {a} hv h k =
      ground (arith, first_holds q xs {a = a}, first-replace_both p q v xs {a = a} hv)

-- A fact of every row.
abbrev pub All {ℓ κ} : {A : Type ℓ} → (A → Type κ) → List A → Type κ
All P [] = Unit
All P (x ∷ xs) = P x × All P xs

pub All-replace {ℓ κ} :
    {A : Type ℓ} (P : A → Type κ) (p : A → Bool) (v : A) (xs : List A)
    → P v
    → All P xs
    → All P (replace p v xs)
unfolding replace
All-replace P p v [] hv h = tt
All-replace P p v (x ∷ xs) hv h = ground (arith, All-replace P p v xs hv h.1)

pub All-first {ℓ κ} :
    {A : Type ℓ} (P : A → Type κ) (p : A → Bool) (xs : List A) {a : A}
    → All P xs
    → first p xs ≡ some a
    → P a
unfolding first
All-first P p [] h e = cc
All-first P p (x ∷ xs) {a} h e = ground (arith, All-first P p xs {a = a} h.1)
