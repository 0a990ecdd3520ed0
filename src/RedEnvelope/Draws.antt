-- ===== src/RedEnvelope/Draws.antt =====
-- What is left of an envelope of modules/extra/red_envelope.py, grab by grab.
use sakura_embyboss.Prelude.{
  ltb, if◌then◌else◌, zero, ℕ, suc, ◌+◌, ◌-◌, ◌*◌, ◌/◌, ◌≤◌, ℤ, pos, negsuc, ◌+ℤ◌, ◌-ℤ◌, ◌≤ℤ◌,
  leb_ℤ, pos_part, int_laws, Bool, true, false, ◌≡◌, refl, sym, ap, subst, ◌∙◌, none, some, List,
  [], ◌∷◌, arith, All, length, some_inj, Bool-cases, inl, inr, leb,
}
use native.Mathlib.Nat.{mul-le-mul_left}
use sakura_embyboss.RedEnvelope.{
  amount_by, random_amount, EnvelopeType, random, equal, private_, Receipt, RedEnvelope, Press,
  has_received, floor_div, amount_of, after_grab, is_target,
}

-- The documented range of `random.uniform(1, k)` at `k = 2 * rest / members`, where `1 ≤ k`: its
-- integer part is from 1 to `k`. For a balance of 32 bits the quotient is not rounded up to an integer.
abbrev pub IsUniform : (ℤ → ℤ → ℤ) → Type 0
IsUniform draw =
    (rest members : ℕ)
    → 2 ≤ members
    → members ≤ 2 * rest
    → (n : ℕ) × ((draw (pos rest) (pos members) ≡ pos n) × ((1 ≤ n) × (n * members ≤ 2 * rest)))

unfoldable pub paid_out : List Receipt → ℤ
paid_out [] = pos 0
paid_out (r ∷ rs) = r.amount +ℤ paid_out rs

abbrev pub AreDistinct : List Receipt → Type 0
AreDistinct [] = Unit
AreDistinct (r ∷ rs) = (has_received r.tg rs ≡ false) × AreDistinct rs

-- The coins left suffice for those who are still to come.
abbrev pub Suffices : EnvelopeType → ℕ → ℕ → ℕ → ℕ → Type 0
Suffices random total members rest left = left ≤ rest + 1
Suffices equal total members rest left = total / members * left ≤ rest
Suffices private_ total members rest left = left ≤ 1

-- The receipts and the rest are the money of the envelope, the receivers and the shares left its
-- members, nobody received twice or a negative amount, and the rest suffices.
pub record IsSound (e : RedEnvelope) : Type 0 where
  pub total : ℕ
  pub rest : ℕ
  pub total_is : e.money ≡ pos total
  pub rest_is : e.rest_money ≡ pos rest
  pub books : paid_out e.receivers +ℤ e.rest_money ≡ e.money
  pub counts : pos (length e.receivers) +ℤ e.rest_members ≡ e.members
  pub once : AreDistinct e.receivers
  pub gains : All (λ (r : Receipt). pos 0 ≤ℤ r.amount) e.receivers
  pub enough : Suffices e.envelope_type total (pos_part e.members) rest (pos_part e.rest_members)

-- A draw is at most what leaves a coin for all but one of the others.
draw_bound :
    (n rest left : ℕ) → 1 ≤ left → left ≤ rest → n * suc left ≤ 2 * rest → n + left ≤ rest + 1
draw_bound n rest left h k b = elim (Bool-cases (leb (n + left) (rest + 1))) [
  | inl e ↦ ground arith
  | inr e ↦
      let d = rest - left in
      let big : d + 2 ≤ n = ground arith in
      let more : suc left * (d + 2) ≤ suc left * n = mul-le-mul_left (suc left) big in
      let some_ : d * 1 ≤ d * left = mul-le-mul_left d h in
      absurd (go d some_ (grind (arith, more)))
]
  where
    go : (d : ℕ) → d * 1 ≤ d * left → d * left + 2 ≤ d → ⊥
    go d x y = omega arith

share_left : (n rest left : ℕ) → n * suc left ≤ rest → n * left + n ≤ rest
share_left n rest left h = grind arith

share_le : (n rest left : ℕ) → n * suc left ≤ rest → n ≤ rest
share_le n rest left h = grind arith

positive_parts : (a : ℤ) → leb_ℤ a (pos 0) ≡ false → (k : ℕ) × (a ≡ pos (suc k))
positive_parts (pos zero) h = ground arith
positive_parts (pos (suc k)) h = (k, refl)
positive_parts (negsuc k) h = ground arith

pos_sub : (a b : ℕ) → b ≤ a → pos a -ℤ pos b ≡ pos (a - b)
unfolding ◌-ℤ◌
pos_sub a b h = ground arith

one_less : (a : ℕ) → pos (suc a) -ℤ pos 1 ≡ pos a
one_less a = omega int_laws

moved : (a s r : ℤ) → a +ℤ s +ℤ (r -ℤ a) ≡ s +ℤ r
moved a s r = omega int_laws

counted : (n : ℕ) (m : ℤ) → pos (suc n) +ℤ (m -ℤ pos 1) ≡ pos n +ℤ m
counted n m = omega int_laws

if_some : (b : Bool) (x a : ℤ) → (if b then some x else none) ≡ some a → x ≡ a
if_some true x a h = some_inj h
if_some false x a h = cc

-- The amount of a grab, of an envelope of type `t` with `rest` coins and one more share than `left`.
abbrev Next : EnvelopeType → ℕ → ℕ → ℕ → ℕ → ℤ → Type 0
Next t total members rest left a =
    (n : ℕ) × ((a ≡ pos n) × ((n ≤ rest) × Suffices t total members (rest - n) left))

random_amount-Next :
    (draw : ℤ → ℤ → ℤ) (e : RedEnvelope) (total rest left : ℕ)
    → IsUniform draw
    → e.rest_money ≡ pos rest
    → e.rest_members ≡ pos (suc left)
    → suc left ≤ rest + 1
    → Next random total (pos_part e.members) rest left (random_amount draw e)
unfolding random_amount
random_amount-Next draw e total rest zero u hr hm s =
    (rest, (rw (hm, hr) refl, (omega arith, omega arith)))
random_amount-Next draw e total rest (suc k) u hr hm s =
    let drawn = u rest (suc (suc k)) (omega arith) (omega arith) in
    let bound = draw_bound drawn.0 rest (suc k) (omega arith) (omega arith) drawn.1.1.1 in
    let more : ltb 1 (suc (suc k) + 0) ≡ true = ground arith in
    (drawn.0, (rw (hm, hr, more) drawn.1.0, (omega (arith, bound), omega (arith, bound))))

floor_div-Next :
    (e : RedEnvelope) (total rest left : ℕ)
    → e.money ≡ pos total
    → total / pos_part e.members * suc left ≤ rest
    → Next equal total (pos_part e.members) rest left (floor_div e.money e.members)
unfolding floor_div
floor_div-Next e total rest left ht s =
    let n = total / pos_part e.members in
    let more = share_left n rest left s in
    (n, (rw ht refl, (share_le n rest left s, omega (arith, more))))

amount_by-Next :
    (t : EnvelopeType) (p : Press) (e : RedEnvelope) (total rest left : ℕ) (a : ℤ)
    → IsUniform p.draw
    → e.money ≡ pos total
    → e.rest_money ≡ pos rest
    → e.rest_members ≡ pos (suc left)
    → Suffices t total (pos_part e.members) rest (suc left)
    → amount_by t p e ≡ some a
    → Next t total (pos_part e.members) rest left a
unfolding amount_by
amount_by-Next random p e total rest left a u ht hr hm s h =
    subst (Next random total (pos_part e.members) rest left) (some_inj h)
      (random_amount-Next p.draw e total rest left u hr hm s)
amount_by-Next equal p e total rest left a u ht hr hm s h =
    subst (Next equal total (pos_part e.members) rest left) (some_inj h)
      (floor_div-Next e total rest left ht s)
amount_by-Next private_ p e total rest left a u ht hr hm s h =
    let this = if_some (is_target e.target_user p.tg) e.rest_money a h in
    (rest, (sym this ∙ hr, (omega arith, omega arith)))

-- A grab that has an amount leaves the envelope sound.
pub after_grab-IsSound :
    (p : Press) (e : RedEnvelope) (a : ℤ)
    → IsSound e
    → IsUniform p.draw
    → has_received p.tg e.receivers ≡ false
    → leb_ℤ e.rest_members (pos 0) ≡ false
    → amount_of p e ≡ some a
    → IsSound (after_grab p a e)
unfolding amount_of paid_out
after_grab-IsSound p e a w u new open_ h =
    let l = positive_parts e.rest_members open_ in
    let s : Suffices e.envelope_type w.total (pos_part e.members) w.rest (suc l.0) =
      subst (λ k. Suffices e.envelope_type w.total (pos_part e.members) w.rest (pos_part k)) l.1
        w.enough in
    let next =
      amount_by-Next e.envelope_type p e w.total w.rest l.0 a u w.total_is w.rest_is l.1 s h in
    let left : e.rest_members -ℤ pos 1 ≡ pos l.0 = ap (λ k. k -ℤ pos 1) l.1 ∙ one_less l.0 in
    record {
      total = w.total;
      rest = w.rest - next.0;
      total_is = w.total_is;
      rest_is = rw (w.rest_is, next.1.0) (pos_sub w.rest next.0 next.1.1.0);
      books = moved a (paid_out e.receivers) e.rest_money ∙ w.books;
      counts = counted (length e.receivers) e.rest_members ∙ w.counts;
      once = (new, w.once);
      gains = (subst (λ k. pos 0 ≤ℤ k) (sym next.1.0) (omega arith), w.gains);
      enough =
          subst
            (λ k.
              Suffices e.envelope_type w.total (pos_part e.members) (w.rest - next.0) (pos_part k))
            (sym left) next.1.1.1;
    }

-- The amount of a grab is not negative and at most the rest.
pub amount_bound :
    (p : Press) (e : RedEnvelope) (a : ℤ)
    → IsSound e
    → IsUniform p.draw
    → leb_ℤ e.rest_members (pos 0) ≡ false
    → amount_of p e ≡ some a
    → (pos 0 ≤ℤ a) × (a ≤ℤ e.rest_money)
unfolding amount_of
amount_bound p e a w u open_ h =
    let l = positive_parts e.rest_members open_ in
    let s : Suffices e.envelope_type w.total (pos_part e.members) w.rest (suc l.0) =
      subst (λ k. Suffices e.envelope_type w.total (pos_part e.members) w.rest (pos_part k)) l.1
        w.enough in
    let next =
      amount_by-Next e.envelope_type p e w.total w.rest l.0 a u w.total_is w.rest_is l.1 s h in
    (
      subst (λ k. pos 0 ≤ℤ k) (sym next.1.0) (omega arith),
      subst (λ k. k ≤ℤ e.rest_money) (sym next.1.0)
          (subst (λ k. pos next.0 ≤ℤ k) (sym w.rest_is) (omega (arith, next.1.1.0))),
    )
