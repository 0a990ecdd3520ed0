-- ===== src/RedEnvelope/Sums.antt =====
-- The coins of modules/extra/red_envelope.py in the rows of users and in envelopes, and what a write
-- of a balance and the return of an envelope do to these sums.
use sakura_embyboss.Prelude.{
  pos_part, neg_part, some_inj, ℤ, pos, ◌+ℤ◌, ◌-ℤ◌, ◌≤ℤ◌, int_laws, +ℤ_assoc, String, Bool, true,
  false, ◌||◌, ◌≡◌, refl, sym, ap, subst, ◌∙◌, Option, some, List, [], ◌∷◌, inl, inr, ◌==◌, eq_int,
  eq_string, arith, All, All-first, All-replace, Bool-cases, if◌then◌else◌, first, replace,
  first_holds, or_zero, int_eq_iff,
}
use sakura_embyboss.Database.{Emby}
use sakura_embyboss.RedEnvelope.{
  RedEnvelope, Group, has_id, has_tg, text_is, is_emby, pop_item, set_item, sql_get_emby,
  sql_update_emby, Press, after_grab, set_iv,
}
use sakura_embyboss.RedEnvelope.Draws.{IsSound}

unfoldable pub coins : List Emby → ℤ
coins [] = pos 0
coins (u ∷ us) = or_zero u.iv +ℤ coins us

unfoldable pub in_envelopes : List RedEnvelope → ℤ
in_envelopes [] = pos 0
in_envelopes (e ∷ es) = e.rest_money +ℤ in_envelopes es

abbrev pub all_coins : Group → ℤ
all_coins g = coins g.users +ℤ in_envelopes g.red_envelopes

-- The names and Emby ids that the database takes for the number of a user are that user's.
abbrev pub OwnNames : (String → ℤ → Bool) → Emby → Type 0
OwnNames matches u =
    (tg : ℤ) → (text_is matches u.name tg || text_is matches u.embyid tg) ≡ true → u.tg ≡ tg

abbrev pub AreOwn : (String → ℤ → Bool) → Group → Type 0
AreOwn matches g = All (OwnNames matches) g.users

first-narrow :
    {A : Type 0} (p q : A → Bool) (xs : List A) {a : A}
    → ((x : A) → q x ≡ true → p x ≡ true)
    → q a ≡ true
    → first p xs ≡ some a
    → first q xs ≡ some a
unfolding first
first-narrow p q [] {a} k h f = ground arith
first-narrow p q (x ∷ xs) {a} k h f = ground (arith, k x, first-narrow p q xs {a = a} k h)

-- The row that `sql_get_emby` finds is the one that `sql_update_emby` writes.
or_rest : (a b c : Bool) → (a || b || c) ≡ true → a ≡ false → (b || c) ≡ true
or_rest true b c h k = cc
or_rest false b c h k = h

pub own_row :
    (matches : String → ℤ → Bool) (tg : ℤ) (users : List Emby) (u : Emby)
    → All (OwnNames matches) users
    → sql_get_emby matches tg users ≡ some u
    → first (has_tg tg) users ≡ some u
unfolding sql_get_emby
own_row matches tg users u own h =
    first-narrow (is_emby matches tg) (has_tg tg) users (λ x k. ground arith)
      ((int_eq_iff u.tg tg).1 mine) h
  where
    holds : is_emby matches tg u ≡ true
    holds = first_holds (is_emby matches tg) users h

    mine : u.tg ≡ tg
    mine = elim (Bool-cases (u.tg == tg)) [
      | inl e ↦ (int_eq_iff u.tg tg).0 e
      | inr e ↦
          All-first (OwnNames matches) (is_emby matches tg) users own h tg
            (or_rest (u.tg == tg) (text_is matches u.name tg) (text_is matches u.embyid tg) holds e)
    ]

exchange : (v x c : ℤ) → v +ℤ c +ℤ x ≡ x +ℤ c +ℤ v
exchange v x c = omega int_laws

if_true : {A : Type 0} (b : Bool) (x y : A) → b ≡ true → (if b then x else y) ≡ x
if_true b x y h = rw h refl

if_false : {A : Type 0} (b : Bool) (x y : A) → b ≡ false → (if b then x else y) ≡ y
if_false b x y h = rw h refl

coins-replace :
    (p : Emby → Bool) (v : Emby) (us : List Emby) (u : Emby)
    → first p us ≡ some u
    → coins (replace p v us) +ℤ or_zero u.iv ≡ coins us +ℤ or_zero v.iv
unfolding coins first replace
coins-replace p v [] u h = cc
coins-replace p v (x ∷ us) u h = elim (Bool-cases (p x)) [
  | inl e ↦
      let this : x ≡ u = some_inj (here (first p us) e h) in
      rw (e, ← this) (exchange (or_zero v.iv) (or_zero x.iv) (coins us))
  | inr e ↦
      let later : first p us ≡ some u = there (first p us) e h in
      rw e (
        +ℤ_assoc (or_zero x.iv) (coins (replace p v us)) (or_zero u.iv)
        ∙ ap (λ c. or_zero x.iv +ℤ c) (coins-replace p v us u later)
        ∙ sym (+ℤ_assoc (or_zero x.iv) (coins us) (or_zero v.iv)))
]
  where
    here : (o : Option Emby) → p x ≡ true → (if p x then some x else o) ≡ some u → some x ≡ some u
    here o e h = cc (if_true (p x) (some x) o e, h)

    there : (o : Option Emby) → p x ≡ false → (if p x then some x else o) ≡ some u → o ≡ some u
    there o e h = cc (if_false (p x) (some x) o e, h)

-- A write of the balance `iv` of the row `u`.
module _ (tg iv : ℤ) (g : Group) (u : Emby) (found : first (has_tg tg) g.users ≡ some u) where
  pub coins-update :
      coins (sql_update_emby true tg iv g).users +ℤ or_zero u.iv ≡ coins g.users +ℤ iv
  unfolding sql_update_emby
  coins-update =
      rw (found, set_iv) (coins-replace (has_tg tg) (record u { iv = some iv }) g.users u found)

  pub own-update :
      (matches : String → ℤ → Bool) (stored : Bool)
      → AreOwn matches g
      → AreOwn matches (sql_update_emby stored tg iv g)
  unfolding sql_update_emby
  own-update matches true own =
      rw (found, set_iv)
        (All-replace (OwnNames matches) (has_tg tg) (record u { iv = some iv }) g.users
          (All-first (OwnNames matches) (has_tg tg) g.users own found) own)
  own-update matches false own = own

rest_bound : (e : RedEnvelope) → IsSound e → pos 0 ≤ℤ e.rest_money
rest_bound e w = subst (λ k. pos 0 ≤ℤ k) (sym w.rest_is) (omega arith)

pub in_envelopes-pop_item :
    (id : String) (es : List RedEnvelope)
    → All IsSound es
    → in_envelopes (pop_item id es) ≤ℤ in_envelopes es
unfolding in_envelopes pop_item
in_envelopes-pop_item id [] h = omega arith
in_envelopes-pop_item id (e ∷ es) h =
    let rest = in_envelopes-pop_item id es h.1 in
    let more = rest_bound e h.0 in
    elim (Bool-cases (e.id == id)) [
      | inl k ↦ rw k (omega (int_laws, rest, more))
      | inr k ↦ rw k (omega (int_laws, rest))
    ]

in_envelopes-pop_found :
    (id : String) (es : List RedEnvelope) (e : RedEnvelope)
    → All IsSound es
    → first (has_id id) es ≡ some e
    → in_envelopes (pop_item id es) +ℤ e.rest_money ≤ℤ in_envelopes es
unfolding in_envelopes pop_item first
in_envelopes-pop_found id [] e h f = cc
in_envelopes-pop_found id (x ∷ es) e h f = elim (Bool-cases (x.id == id)) [
  | inl k ↦
      let this : x ≡ e =
        some_inj (cc (if_true (x.id == id) (some x) (first (has_id id) es) k, f)) in
      let rest = in_envelopes-pop_item id es h.1 in rw (k, ← this) (omega (int_laws, rest))
  | inr k ↦
      let later : first (has_id id) es ≡ some e =
        cc (if_false (x.id == id) (some x) (first (has_id id) es) k, f) in
      let rest = in_envelopes-pop_found id es e h.1 later in rw k (omega (int_laws, rest))
]

pub in_envelopes-set_item :
    (p : Press) (a : ℤ) (e : RedEnvelope) (es : List RedEnvelope)
    → All IsSound es
    → first (has_id e.id) es ≡ some e
    → in_envelopes (set_item (after_grab p a e) es) +ℤ a ≤ℤ in_envelopes es
unfolding set_item in_envelopes
in_envelopes-set_item p a e es h f =
    let rest = in_envelopes-pop_found e.id es e h f in omega (int_laws, rest)

cancel_gain : (c' c v a : ℤ) → c' +ℤ v ≡ c +ℤ (v +ℤ a) → c' ≡ c +ℤ a
cancel_gain c' c v a h =
    let up = ap pos_part h in let down = ap neg_part h in omega (int_laws, up, down)

pub cancel_loss : (c' c v m : ℤ) → c' +ℤ v ≡ c +ℤ (v -ℤ m) → c' +ℤ m ≡ c
cancel_loss c' c v m h =
    let up = ap pos_part h in let down = ap neg_part h in omega (int_laws, up, down)

-- A payment gives the users at most its amount.
pub coins-paid :
    (stored : Bool) (tg v a : ℤ) (g : Group) (u : Emby)
    → first (has_tg tg) g.users ≡ some u
    → u.iv ≡ some v
    → pos 0 ≤ℤ a
    → coins (sql_update_emby stored tg (v +ℤ a) g).users ≤ℤ coins g.users +ℤ a
unfolding sql_update_emby
coins-paid true tg v a g u found has gain =
    let moved = coins-update tg (v +ℤ a) g u found in
    let exact = cancel_gain (coins (sql_update_emby true tg (v +ℤ a) g).users) (coins g.users) v a (
      subst
        (λ o.
          coins (sql_update_emby true tg (v +ℤ a) g).users +ℤ or_zero o ≡ coins g.users +ℤ (v +ℤ a))
        has moved) in
    subst (λ c. c ≤ℤ coins g.users +ℤ a) (sym exact) (omega arith)
coins-paid false tg v a g u found has gain = omega (int_laws, gain)

pub total_bound : (c' c a i' i : ℤ) → c' ≤ℤ c +ℤ a → i' +ℤ a ≤ℤ i → c' +ℤ i' ≤ℤ c +ℤ i
total_bound c' c a i' i h k = omega (int_laws, h, k)

pub placed_bound : (c' c m i' i : ℤ) → c' +ℤ m ≡ c → i' ≤ℤ i → c' +ℤ (m +ℤ i') ≤ℤ c +ℤ i
placed_bound c' c m i' i h k =
    let up = ap pos_part h in let down = ap neg_part h in omega (int_laws, up, down, k)
