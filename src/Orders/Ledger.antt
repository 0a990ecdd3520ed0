-- ===== src/Orders/Ledger.antt =====
-- Orders and the billing ledger of application/commerce_service.py: an order has an entry for its
-- credit, and one for its refund, exactly when its status says so.
use sakura_embyboss.Prelude.{
  ℕ, ◌+◌, String, Bool, false, ◌&&◌, ◌||◌, ◌≡◌, refl, sym, ◌∙◌, ap, inl, inr, Option, none, some,
  List, [], ◌∷◌, ◌==◌, eq_string, if◌then◌else◌, first, replace, first-replace_self,
  first-replace_other, Bool-cases, arith, subst,
}
use text.Mathlib.TextEquality.{eq_iff}
use sakura_embyboss.Database.{Db, RechargeOrder, BillingEntry}
use sakura_embyboss.Operations.{key_is}
use sakura_embyboss.Orders.{is_order, get_order}
use sakura_embyboss.Orders.Effects.{
  Change, cancels, credits, refunds, Changed, status_after, status_before, Records,
}
use sakura_embyboss.Orders.Calls.{
  Placed, OrderMove, keeps, places, changes, OrderCall, run_order, run_order-Move,
}

abbrev pub is_entry_of : String → String → BillingEntry → Bool
is_entry_of kind id e = (e.entry_type == kind) && key_is id e.order_id

-- The entries of a kind for an order.
unfoldable pub count : String → String → List BillingEntry → ℕ
count kind id [] = 0
count kind id (e ∷ es) = (if is_entry_of kind id e then 1 else 0) + count kind id es

abbrev pub due_credit : Option RechargeOrder → ℕ
due_credit none = 0
due_credit (some o) = if o.status == "credited" || o.status == "refunded" then 1 else 0

abbrev pub due_refund : Option RechargeOrder → ℕ
due_refund none = 0
due_refund (some o) = if o.status == "refunded" then 1 else 0

-- Each order has its own id.
unfoldable pub Distinct : List RechargeOrder → Type 0
Distinct [] = Unit
Distinct (o ∷ os) = (first (is_order o.id) os ≡ none) × Distinct os

pub record IsReconciled (db : Db) : Type 0 where
  pub distinct : Distinct db.orders
  pub credited : (id : String) → count "order_credited" id db.billing ≡ due_credit (get_order id db)
  pub refunded : (id : String) → count "order_refunded" id db.billing ≡ due_refund (get_order id db)

other_id : (k id j : String) → (k == id) ≡ false → j ≡ k → (j == id) ≡ false
other_id k id j e h = rw h e

ne_sym : (a b : String) → (a == b) ≡ false → (b == a) ≡ false
ne_sym a b h = ground (arith, eq_iff a b, eq_iff b a)

-- The rewritten order is found under its id, and under no other.
first-write :
    (o o' : RechargeOrder) (id : String) (os : List RechargeOrder)
    → first (is_order o.id) os ≡ some o
    → o'.id ≡ o.id
    → first (is_order id) (replace (is_order o.id) o' os)
      ≡ (if o.id == id then some o' else first (is_order id) os)
first-write o o' id os found same = elim (Bool-cases (o.id == id)) [
  | inl e ↦
      let here : o.id ≡ id = (eq_iff o.id id).0 e in
      rw e (
        subst (λ k. first (is_order k) (replace (is_order o.id) o' os) ≡ some o') here
          (first-replace_self (is_order o.id) o' os ((eq_iff o'.id o.id).1 same) found))
  | inr e ↦ rw e (
      first-replace_other (is_order o.id) (is_order id) o' os
        (λ x h. other_id o.id id x.id e ((eq_iff x.id o.id).0 h)) (other_id o.id id o'.id e same))
]

Distinct-replace :
    (o o' : RechargeOrder) (os : List RechargeOrder)
    → o'.id ≡ o.id
    → Distinct os
    → Distinct (replace (is_order o.id) o' os)
unfolding Distinct replace
Distinct-replace o o' [] same h = tt
Distinct-replace o o' (x ∷ xs) same (free, h) = elim (Bool-cases (x.id == o.id)) [
  | inl e ↦ let here : o'.id ≡ x.id = same ∙ sym ((eq_iff x.id o.id).0 e) in rw e (rw here free, h)
  | inr e ↦ rw e (
    first-replace_other (is_order o.id) (is_order x.id) o' xs
          (λ y h. other_id o.id x.id y.id (ne_sym x.id o.id e) ((eq_iff y.id o.id).0 h))
          (other_id o.id x.id o'.id (ne_sym x.id o.id e) same)
        ∙ free,
    Distinct-replace o o' xs same h,
  )
]

-- The count with a new entry of a known order.
count-cons :
    (kind id : String) (o : RechargeOrder) (e : BillingEntry) (es : List BillingEntry)
    → e.order_id ≡ some o.id
    → count kind id (e ∷ es)
      ≡ (if o.id == id then (if e.entry_type == kind then 1 else 0) else 0) + count kind id es
unfolding count
count-cons kind id o e es h = elim (Bool-cases (o.id == id)) [
  | inl x ↦ elim (Bool-cases (e.entry_type == kind)) [
    | inl y ↦ rw (h, x, y) refl
    | inr y ↦ rw (h, x, y) refl
  ]
  | inr x ↦ elim (Bool-cases (e.entry_type == kind)) [
    | inl y ↦ rw (h, x, y) refl
    | inr y ↦ rw (h, x, y) refl
  ]
]

abbrev one_if : Bool → ℕ
one_if b = if b then 1 else 0

credit_step :
    (change : Change) (kind before after : String)
    → Records change kind
    → before ≡ status_before change
    → after ≡ status_after change
    → one_if (kind == "order_credited") + one_if (before == "credited" || before == "refunded")
      ≡ one_if (after == "credited" || after == "refunded")
credit_step cancels kind before after k h h' = rw (k.0, h, h') refl
credit_step credits kind before after k h h' = rw (k, h, h') refl
credit_step refunds kind before after k h h' = rw (k, h, h') refl

refund_step :
    (change : Change) (kind before after : String)
    → Records change kind
    → before ≡ status_before change
    → after ≡ status_after change
    → one_if (kind == "order_refunded") + one_if (before == "refunded")
      ≡ one_if (after == "refunded")
refund_step cancels kind before after k h h' = rw (k.1, h, h') refl
refund_step credits kind before after k h h' = rw (k, h, h') refl
refund_step refunds kind before after k h h' = rw (k, h, h') refl

module _ (change : Change) (o : RechargeOrder) (before after : Db)
    (c : Changed change o before after) where
  pub found_after :
      (id : String)
      → get_order id after ≡ (if o.id == id then some c.order' else get_order id before)
  found_after id =
      ap (first (is_order id)) c.orders ∙ first-write o c.order' id before.orders c.found c.same_id

module _ (change : Change) (o : RechargeOrder) (before after : Db)
    (c : Changed change o before after) (r : IsReconciled before) where
  -- A kind of entry whose count follows the status of the order.
  balanced :
      (kind : String) (due : Option RechargeOrder → ℕ)
      → ((id : String) → count kind id before.billing ≡ due (get_order id before))
      → one_if (c.entry.entry_type == kind) + due (some o) ≡ due (some c.order')
      → (id : String) → count kind id after.billing ≡ due (get_order id after)
  balanced kind due old step id =
      let n =
        ap (count kind id) c.billing ∙ count-cons kind id o c.entry before.billing c.entry_order in
      elim (Bool-cases (o.id == id)) [
        | inl e ↦
            let here : get_order id before ≡ some o =
              subst (λ k. get_order k before ≡ some o) ((eq_iff o.id id).0 e) c.found in
            let old_here : count kind id before.billing ≡ due (some o) = old id ∙ ap due here in
            rw (n, found_after change o before after c id, e, old_here) step
        | inr e ↦ rw (n, found_after change o before after c id, e, old id) (omega arith)
      ]

  Changed-IsReconciled : IsReconciled after
  Changed-IsReconciled = record {
    distinct =
        subst Distinct (sym c.orders)
          (Distinct-replace o c.order' before.orders c.same_id r.distinct);
    credited =
        balanced "order_credited" due_credit r.credited
          (credit_step change c.entry.entry_type o.status c.order'.status c.kind c.was c.becomes);
    refunded =
        balanced "order_refunded" due_refund r.refunded
          (refund_step change c.entry.entry_type o.status c.order'.status c.kind c.was c.becomes);
  }

module _ (before after : Db) (p : Placed before after) (r : IsReconciled before) where
  opened :
      (kind : String) (due : Option RechargeOrder → ℕ)
      → ((id : String) → count kind id before.billing ≡ due (get_order id before))
      → (p.entry.entry_type == kind) ≡ false
      → due (some p.order) ≡ 0
      → due none ≡ 0
      → (id : String) → count kind id after.billing ≡ due (get_order id after)
  unfolding first
  opened kind due old other zero_due no_due id =
      let n =
        ap (count kind id) p.billing
        ∙ count-cons kind id p.order p.entry before.billing p.entry_order in
      elim (Bool-cases (p.order.id == id)) [
        | inl e ↦
            let here : get_order id before ≡ none =
              subst (λ k. get_order k before ≡ none) ((eq_iff p.order.id id).0 e) p.absent in
            let old_here : count kind id before.billing ≡ 0 = old id ∙ ap due here ∙ no_due in
            rw (n, p.orders, e, other, old_here, zero_due) refl
        | inr e ↦ rw (n, p.orders, e, old id) (omega arith)
      ]

  Placed-IsReconciled : IsReconciled after
  unfolding Distinct
  Placed-IsReconciled = record {
    distinct = subst Distinct (sym p.orders) (p.absent, r.distinct);
    credited = opened "order_credited" due_credit r.credited p.kind.0 (rw p.pending refl) refl;
    refunded = opened "order_refunded" due_refund r.refunded p.kind.1 (rw p.pending refl) refl;
  }

OrderMove-IsReconciled :
    (before after : Db) → OrderMove before after → IsReconciled before → IsReconciled after
OrderMove-IsReconciled before after (keeps same) r = subst IsReconciled (sym same) r
OrderMove-IsReconciled before after (places p) r = Placed-IsReconciled before after p r
OrderMove-IsReconciled before after (changes change o c) r =
    Changed-IsReconciled change o before after c r

abbrev pub run_orders : List OrderCall → Db → Db
run_orders [] db = db
run_orders (c ∷ cs) db = run_orders cs (run_order c db).1

-- After any calls that create, decide, cancel and refund orders, in any order, whether accepted or
-- refused: every id names at most one order; an order has exactly one entry "order_credited" in the
-- billing ledger if it is credited or refunded, and none else; and it has exactly one entry
-- "order_refunded" if it is refunded, and none else. An id without an order has no such entries.
pub run_orders-IsReconciled :
    (cs : List OrderCall) (db : Db) → IsReconciled db → IsReconciled (run_orders cs db)
run_orders-IsReconciled [] db r = r
run_orders-IsReconciled (c ∷ cs) db r =
    run_orders-IsReconciled cs (run_order c db).1
      (OrderMove-IsReconciled db (run_order c db).1 (run_order-Move c db) r)
