-- ===== src/Orders/Lifecycle.antt =====
-- The life of an order as its owner sees it, and that the calls of `CommerceService` keep to it.
use sakura_embyboss.Prelude.{
  String, ◌≡◌, refl, sym, ◌∙◌, ap, inl, inr, Option, none, some, List, [], ◌∷◌, ◌==◌, eq_string,
  if◌then◌else◌, first, Bool-cases, subst,
}
use text.Mathlib.TextEquality.{eq_iff}
use sakura_embyboss.Database.{Db, RechargeOrder}
use sakura_embyboss.Orders.{get_order}
use sakura_embyboss.Orders.Effects.{Change, cancels, credits, refunds, status_before, status_after}
use sakura_embyboss.Orders.Calls.{
  OrderMove, keeps, places, changes, OrderCall, run_order, run_order-Move,
}
use sakura_embyboss.Orders.Ledger.{found_after, run_orders}

-- The abstract state of an order id.
pub data Phase : Type 0 where
  absent pending canceled credited refunded unknown : Phase

abbrev pub phase_of : String → Phase
phase_of s =
    if s == "pending"
    then pending
    else if s == "canceled"
    then canceled
    else if s == "credited"
    then credited
    else if s == "refunded"
    then refunded
    else unknown

abbrev pub phase : Option RechargeOrder → Phase
phase none = absent
phase (some o) = phase_of o.status

-- The abstract steps: a new order is pending, a pending order is canceled or credited, and a
-- credited order is refunded.
pub data Step : Phase → Phase → Type 0 where
  opening : Step absent pending
  canceling : Step pending canceled
  crediting : Step pending credited
  refunding : Step credited refunded

pub data Reaches : Phase → Phase → Type 0 where
  here : (p : Phase) → Reaches p p
  next : {p q r : Phase} → Step p q → Reaches q r → Reaches p r

change_Step :
    (change : Change) (before after : String)
    → before ≡ status_before change
    → after ≡ status_after change
    → Step (phase_of before) (phase_of after)
change_Step cancels before after h h' = rw (h, h') canceling
change_Step credits before after h h' = rw (h, h') crediting
change_Step refunds before after h h' = rw (h, h') refunding

-- A call makes one step of the life of an order, or none.
data Advances (p q : Phase) : Type 0 where
  rests : p ≡ q → Advances p q
  steps : Step p q → Advances p q

Move-Advances :
    (before after : Db) (id : String)
    → OrderMove before after
    → Advances (phase (get_order id before)) (phase (get_order id after))
unfolding first
Move-Advances before after id (keeps same) = rests (ap (λ s. phase (get_order id s)) (sym same))
Move-Advances before after id (places p) = elim (Bool-cases (p.order.id == id)) [
  | inl e ↦
      let none_before : get_order id before ≡ none =
        subst (λ k. get_order k before ≡ none) ((eq_iff p.order.id id).0 e) p.absent in
      steps (rw (none_before, p.orders, e, p.pending) opening)
  | inr e ↦ rests (rw (p.orders, e) refl)
]
Move-Advances before after id (changes change o c) = elim (Bool-cases (o.id == id)) [
  | inl e ↦
      let there : get_order id before ≡ some o =
        subst (λ k. get_order k before ≡ some o) ((eq_iff o.id id).0 e) c.found in
      let then_ : get_order id after ≡ some c.order' =
        found_after change o before after c id ∙ rw e refl in
      steps (rw (there, then_) (change_Step change o.status c.order'.status c.was c.becomes))
  | inr e ↦
      let same : get_order id after ≡ get_order id before =
        found_after change o before after c id ∙ rw e refl in
      rests (ap phase (sym same))
]

follow : (p q r : Phase) → Advances p q → Reaches q r → Reaches p r
follow p q r (rests e) h = subst (λ x. Reaches x r) (sym e) h
follow p q r (steps s) h = next s h

-- Whatever calls are made, the status of each order id only follows the abstract life of an order:
-- absent, pending, then canceled, or credited and perhaps refunded.
pub run_orders-Refines :
    (cs : List OrderCall) (db : Db) (id : String)
    → Reaches (phase (get_order id db)) (phase (get_order id (run_orders cs db)))
run_orders-Refines [] db id = here (phase (get_order id db))
run_orders-Refines (c ∷ cs) db id =
    let db' = (run_order c db).1 in
    follow (phase (get_order id db)) (phase (get_order id db'))
      (phase (get_order id (run_orders cs db'))) (Move-Advances db db' id (run_order-Move c db))
      (run_orders-Refines cs db' id)
