-- ===== src/Orders/Health.antt =====
-- What `reconciliation_summary` reports when the calls of the service made all orders.
use sakura_embyboss.Prelude.{
  zero, suc, ◌+◌, ◌-◌, ◌*◌, ◌<◌, ◌↔◌, sym, Bool, false, ℕ, ◌≤◌, ltb, String, true, ◌&&◌, ◌≡◌, refl,
  subst, ◌∙◌, inl, inr, Option, none, some, List, [], ◌∷◌, ◌==◌, eq_string, eq_nat, if◌then◌else◌,
  first, Bool-cases, arith, length, ==_refl, All,
}
use text.Mathlib.TextEquality.{eq_iff}
use sakura_embyboss.Database.{Db, DateTime, RechargeOrder, BillingEntry}
use sakura_embyboss.Orders.{is_order, get_order}
use sakura_embyboss.Orders.Calls.{OrderCall}
use sakura_embyboss.Orders.Ledger.{
  count, due_credit, Distinct, IsReconciled, run_orders, run_orders-IsReconciled,
}
use sakura_embyboss.Orders.Summary.{
  is_stale, stale_after, stale_pending, member, distinct, credited_ids, credited_entries,
  difference, sorted, repeated, missing_ids, duplicate_credits, take, health,
  reconciliation_summary,
}

-- An id has an entry exactly when it is in the list of the entries' ids.
member-credited_entries :
    (id : String) (es : List BillingEntry)
    → member id (credited_entries es) ≡ ltb 0 (count "order_credited" id es)
unfolding member credited_entries count
member-credited_entries id [] = refl
member-credited_entries id (e ∷ es) = elim (Bool-cases (e.entry_type == "order_credited")) [
  | inr h ↦ rw (h, member-credited_entries id es) (ground arith)
  | inl h ↦ named (member-credited_entries id es) e.order_id refl h
]
  where
    named :
        (member id (credited_entries es) ≡ ltb 0 (count "order_credited" id es))
        → (o : Option String) → e.order_id ≡ o
        → (e.entry_type == "order_credited") ≡ true
        → member id (credited_entries (e ∷ es)) ≡ ltb 0 (count "order_credited" id (e ∷ es))
    named ih none n h = rw (h, n, ih) (ground arith)
    named ih (some k) n h = elim (Bool-cases (k == id)) [
      | inl x ↦ rw (h, n, x) (ground arith)
      | inr x ↦ rw (h, n, x, ih) (ground arith)
    ]

abbrev Covered : List String → List String → Type 0
Covered xs ys = All (λ x. member x ys ≡ true) xs

difference-nil : (xs ys : List String) → Covered xs ys → difference xs ys ≡ []
unfolding difference
difference-nil [] ys h = refl
difference-nil (x ∷ xs) ys (h, hs) = rw (h, difference-nil xs ys hs) refl

Covered-distinct : (xs ys : List String) → Covered xs ys → Covered (distinct xs) ys
unfolding distinct
Covered-distinct [] ys h = tt
Covered-distinct (x ∷ xs) ys (h, hs) = elim (Bool-cases (member x (distinct xs))) [
  | inl e ↦ rw e (Covered-distinct xs ys hs)
  | inr e ↦ rw e (h, Covered-distinct xs ys hs)
]

-- Every credited order has an entry.
Covered-credited :
    (es : List BillingEntry) (os : List RechargeOrder)
    → Distinct os
    → ((id : String) → due_credit (first (is_order id) os) ≤ count "order_credited" id es)
    → Covered (credited_ids os) (credited_entries es)
unfolding Distinct credited_ids first
Covered-credited es [] d enough = tt
Covered-credited es (o ∷ os) (free, d) enough = elim (Bool-cases (o.status == "credited")) [
  | inr e ↦ rw e (Covered-credited es os d rest)
  | inl e ↦
      let own : 1 ≤ count "order_credited" o.id es =
        subst (λ (n : ℕ). n ≤ count "order_credited" o.id es) (head e) (enough o.id) in
      rw e (member-credited_entries o.id es ∙ ground (arith), Covered-credited es os d rest)
]
  where
    head :
        (o.status == "credited") ≡ true
        → due_credit (if o.id == o.id then some o else first (is_order o.id) os) ≡ 1
    head e = rw (==_refl o.id, e) refl

    rest : (id : String) → due_credit (first (is_order id) os) ≤ count "order_credited" id es
    rest id = elim (Bool-cases (o.id == id)) [
      | inl e ↦
          let gone : first (is_order id) os ≡ none =
            subst (λ k. first (is_order k) os ≡ none) ((eq_iff o.id id).0 e) free in
          rw gone (omega arith)
      | inr e ↦ rw e at (enough id)
    ]

due_credit-le : (o : Option RechargeOrder) → due_credit o ≤ 1
due_credit-le none = omega arith
due_credit-le (some o) = ground arith

repeated-zero :
    (es : List BillingEntry) (ids : List String)
    → ((id : String) → count "order_credited" id es ≤ 1)
    → repeated es ids ≡ 0
unfolding repeated
repeated-zero es [] once = refl
repeated-zero es (id ∷ ids) once =
    let here = once id in let rest = repeated-zero es ids once in ground arith

missing_ids-nil : (db : Db) → IsReconciled db → missing_ids db ≡ []
unfolding missing_ids sorted
missing_ids-nil db r =
    let covered =
      Covered-distinct (credited_ids db.orders) (credited_entries db.billing)
        (Covered-credited db.billing db.orders r.distinct (λ id. omega (arith, r.credited id))) in
    rw (difference-nil (distinct (credited_ids db.orders)) (credited_entries db.billing) covered)
      refl

duplicate_credits-zero : (db : Db) → IsReconciled db → duplicate_credits db ≡ 0
unfolding duplicate_credits
duplicate_credits-zero db r =
    repeated-zero db.billing (distinct (credited_entries db.billing))
      (λ id. omega (arith, r.credited id, due_credit-le (get_order id db)))

-- A pending order made more than a day, in microseconds, before `now`.
abbrev pub IsOld : DateTime → RechargeOrder → Type 0
IsOld now o = (o.status ≡ "pending") × (o.created_at + 24 * 3600000000 < now)

none-IsOld :
    (now : DateTime) (os : List RechargeOrder)
    → stale_pending now os ≡ 0
    → All (λ o. ¬ IsOld now o) os
unfolding stale_pending
none-IsOld now [] h = tt
none-IsOld now (o ∷ os) h = elim (Bool-cases (is_stale now o)) [
  | inl e ↦ let one = rw e at h in absurd (go (stale_pending now os) one)
  | inr e ↦ (λ old. fresh e old, none-IsOld now os (tail (stale_pending now os) (rw e at h)))
]
  where
    tail : (n : ℕ) → 0 + n ≡ 0 → n ≡ 0
    tail n h = omega arith

    go : (n : ℕ) → 1 + n ≡ 0 → ⊥
    go n h = omega arith

    fresh : is_stale now o ≡ false → IsOld now o → ⊥
    fresh e (pending, before) =
        let is_pending : (o.status == "pending") ≡ true = (eq_iff o.status "pending").1 pending in
        let early : ltb o.created_at (now - stale_after) ≡ true = ground arith in
        cc (rw (is_pending, early) at e)

stale_none :
    (now : DateTime) (os : List RechargeOrder)
    → All (λ o. ¬ IsOld now o) os
    → stale_pending now os ≡ 0
unfolding stale_pending
stale_none now [] h = refl
stale_none now (o ∷ os) (h, hs) = elim (Bool-cases (is_stale now o)) [
  | inl e ↦
      let (pending, early) =
        both (o.status == "pending") (ltb o.created_at (now - stale_after)) e in
      absurd (h ((eq_iff o.status "pending").0 pending, ground arith))
  | inr e ↦ rw (e, stale_none now os hs) refl
]
  where
    both : (a b : Bool) → (a && b) ≡ true → (a ≡ true) × (b ≡ true)
    both true true h = (refl, refl)
    both true false h = cc
    both false b h = cc

healthy_iff : (n : ℕ) → (health (n == 0) ≡ "healthy") ↔ (n ≡ 0)
healthy_iff zero = ((λ h. refl), (λ h. refl))
healthy_iff (suc n) = ((λ h. absurd (sick (rw some_left at h))), (λ h. absurd (go h)))
  where
    some_left : (suc n == 0) ≡ false
    some_left = ground arith

    sick : health false ≡ "healthy" → ⊥
    sick h = let same = (eq_iff "attention" "healthy").1 h in cc

    go : suc n ≡ 0 → ⊥
    go h = omega arith

-- After any calls of the service from a reconciled database, the summary finds no credited order
-- without a ledger entry and no order with two, and its status is "healthy" exactly when no order on
-- record has the status "pending" and was made more than twenty-four hours before `now`.
pub reconciliation_lem :
    (cs : List OrderCall) (db : Db) (now checked_at : DateTime)
    → IsReconciled db
    → let s = reconciliation_summary now checked_at (run_orders cs db) in
      (s.credited_without_ledger ≡ 0)
      × (s.credited_without_ledger_ids ≡ [])
      × (s.duplicate_credit_entries ≡ 0)
      × ((s.status ≡ "healthy") ↔ All (λ o. ¬ IsOld now o) (run_orders cs db).orders)
unfolding reconciliation_summary take
reconciliation_lem cs db now checked_at r =
    let after = run_orders cs db in
    let r' = run_orders-IsReconciled cs db r in
    let (counted, ids, twice, status) =
      go (stale_pending now after.orders) (missing_ids after) (duplicate_credits after)
        (missing_ids-nil after r') (duplicate_credits-zero after r') in
    let iff = healthy_iff (stale_pending now after.orders) in
    (
      counted,
      ids,
      twice,
      (
        (λ h. none-IsOld now after.orders (iff.0 (sym status ∙ h))),
        (λ h. status ∙ iff.1 (stale_none now after.orders h)),
      ),
    )
  where
    go :
        (old : ℕ) (missing : List String) (twice : ℕ)
        → missing ≡ []
        → twice ≡ 0
        → (length missing ≡ 0)
          × (take 20 missing ≡ [])
          × (twice ≡ 0)
          × (health (old == 0 && length missing == 0 && twice == 0) ≡ health (old == 0))
    go old missing twice h h' = elim (Bool-cases (old == 0)) [
      | inl e ↦ rw (h, h', e) (refl, refl, refl, refl)
      | inr e ↦ rw (h, h', e) (refl, refl, refl, refl)
    ]
