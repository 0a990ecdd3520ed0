-- ===== src/Orders/Summary.antt =====
-- `reconciliation_summary` of application/commerce_service.py.
use sakura_embyboss.Prelude.{
  ℕ, zero, suc, ◌+◌, ◌-◌, ltb, String, Bool, true, false, ◌&&◌, ◌||◌, Option, none, some, List, [],
  ◌∷◌, map, ◌==◌, eq_string, eq_nat, if◌then◌else◌, length,
}
use Prim.Native.String.{compare}
use Prim.Native.Nat.{Ordering}
use sakura_embyboss.Database.{Db, DateTime, RechargeOrder, BillingEntry}
use sakura_embyboss.Orders.Ledger.{count}

-- `timedelta(hours=24)`
abbrev pub stale_after : ℕ
stale_after = 86400000000

abbrev pub is_stale : DateTime → RechargeOrder → Bool
is_stale now o = o.status == "pending" && ltb o.created_at (now - stale_after)

unfoldable pub stale_pending : DateTime → List RechargeOrder → ℕ
stale_pending now [] = 0
stale_pending now (o ∷ os) = (if is_stale now o then 1 else 0) + stale_pending now os

unfoldable pub member : String → List String → Bool
member id [] = false
member id (x ∷ xs) = (x == id) || member id xs

-- The values of a set or of the groups of a query, each once.
unfoldable pub distinct : List String → List String
unfolding member
distinct [] = []
distinct (x ∷ xs) = let rest = distinct xs in if member x rest then rest else x ∷ rest

unfoldable pub credited_ids : List RechargeOrder → List String
credited_ids [] = []
credited_ids (o ∷ os) =
    let rest = credited_ids os in if o.status == "credited" then o.id ∷ rest else rest

abbrev pub with_id : Option String → List String → List String
with_id none ids = ids
with_id (some id) ids = id ∷ ids

-- The order ids of the entries "order_credited".
unfoldable pub credited_entries : List BillingEntry → List String
credited_entries [] = []
credited_entries (e ∷ es) =
    let rest = credited_entries es in
    if e.entry_type == "order_credited" then with_id e.order_id rest else rest

-- `credited_ids - credited_entries`
unfoldable pub difference : List String → List String → List String
unfolding member
difference [] ys = []
difference (x ∷ xs) ys = let rest = difference xs ys in if member x ys then rest else x ∷ rest

abbrev pub comes_after : String → String → Bool
comes_after x y = elim (compare x y) [ Ordering.gt ↦ true | _ ↦ false ]

unfoldable pub insert_sorted : String → List String → List String
insert_sorted x [] = x ∷ []
insert_sorted x (y ∷ ys) =
    let rest = insert_sorted x ys in if comes_after x y then y ∷ rest else x ∷ y ∷ ys

-- `sorted`
unfoldable pub sorted : List String → List String
unfolding insert_sorted
sorted [] = []
sorted (x ∷ xs) = insert_sorted x (sorted xs)

-- The groups of entries of one order with more than one entry.
unfoldable pub repeated : List BillingEntry → List String → ℕ
repeated es [] = 0
repeated es (id ∷ ids) = (if ltb 1 (count "order_credited" id es) then 1 else 0) + repeated es ids

unfoldable pub with_status : String → List RechargeOrder → ℕ
with_status s [] = 0
with_status s (o ∷ os) = (if o.status == s then 1 else 0) + with_status s os

abbrev pub status_of : RechargeOrder → String
status_of o = o.status

unfoldable pub status_counts : List RechargeOrder → List (String × ℕ)
unfolding distinct with_status
status_counts os = map (λ s. (s, with_status s os)) (distinct (map status_of os))

unfoldable pub take : ℕ → List String → List String
take zero xs = []
take (suc n) [] = []
take (suc n) (x ∷ xs) = x ∷ take n xs

pub record Reconciliation : Type 0 where
  pub status : String
  pub status_counts : List (String × ℕ)
  pub stale_pending : ℕ
  pub credited_without_ledger : ℕ
  pub credited_without_ledger_ids : List String
  pub duplicate_credit_entries : ℕ
  pub checked_at : DateTime

unfoldable pub missing_ids : Db → List String
unfolding distinct credited_ids credited_entries difference sorted
missing_ids db =
    sorted (difference (distinct (credited_ids db.orders)) (credited_entries db.billing))

unfoldable pub duplicate_credits : Db → ℕ
unfolding distinct credited_entries repeated
duplicate_credits db = repeated db.billing (distinct (credited_entries db.billing))

abbrev pub health : Bool → String
health fine = if fine then "healthy" else "attention"

-- `reconciliation_summary`; the calls of `utcnow` read `now` and `checked_at`.
unfoldable pub reconciliation_summary : DateTime → DateTime → Db → Reconciliation
unfolding stale_pending missing_ids duplicate_credits status_counts take
reconciliation_summary now checked_at db = record {
  status = health (
      stale_pending now db.orders == 0
      && length (missing_ids db) == 0
      && duplicate_credits db == 0);
  status_counts = status_counts db.orders;
  stale_pending = stale_pending now db.orders;
  credited_without_ledger = length (missing_ids db);
  credited_without_ledger_ids = take 20 (missing_ids db);
  duplicate_credit_entries = duplicate_credits db;
  checked_at = checked_at;
}
