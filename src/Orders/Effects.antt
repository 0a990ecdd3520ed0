-- ===== src/Orders/Effects.antt =====
-- What one call of `CommerceService` does to orders, the billing ledger and the books.
use sakura_embyboss.Prelude.{
  ℤ, ◌+ℤ◌, ◌-ℤ◌, neg, or_zero, +ℤ_neg, ltb_ℤ, String, false, ◌≡◌, refl, sym, subst, ◌∙◌, ◌⊎◌, inl,
  inr, Option, none, some, List, ◌∷◌, ◌==◌, eq_string, eq_int, if◌then◌else◌, first_holds, replace,
  Bool-cases, ap,
}
use text.Mathlib.TextEquality.{eq_iff}
use sakura_embyboss.Exec.{
  Exec, Result, ok, err, settle, bind_ok, bind_err, integrity_error, pure, ◌>>◌,
}
use sakura_embyboss.Database.{
  Db, DateTime, Fields, Actor, Emby, has_tg, get_user, by_legacy_tg, RechargeOrder, BillingEntry,
  UserNotification, OperationTask, SystemEvent, AuditLog,
}
use sakura_embyboss.Operations.{audit, event, Posting, point_transaction, transaction_of}
use sakura_embyboss.Operations.Booking.{booked, point_transaction_cases}
use sakura_embyboss.Points.{iv, max_int_value, save_user}
use sakura_embyboss.Points.Posted.{Posted}
use sakura_embyboss.Points.Audit.{get_user-tg}
use sakura_embyboss.Books.{Untouched}
use sakura_embyboss.Notifications.{Delivery, Notice, add_notification}
use sakura_embyboss.Notifications.Frame.{noted, Failed, add_notification-Notes}
use sakura_embyboss.Orders.{is_order, get_order, save_order, serialize_order, order_event}
use sakura_embyboss.Orders.Decide.{
  close_order, rejected_row, rejection_entry, reject, credit_of, credited_row, credit_posting,
  credit_entry, credit, approve_user, Decision, decide_found, decide_order, refunded_row,
  refund_posting, refund_entry, give_back,
}

-- What may happen to an order.
pub data Change : Type 0 where
  cancels credits refunds : Change

abbrev pub status_before : Change → String
status_before cancels = "pending"
status_before credits = "pending"
status_before refunds = "credited"

abbrev pub status_after : Change → String
status_after cancels = "canceled"
status_after credits = "credited"
status_after refunds = "refunded"

abbrev pub Records : Change → String → Type 0
Records cancels kind = ((kind == "order_credited") ≡ false) × ((kind == "order_refunded") ≡ false)
Records credits kind = kind ≡ "order_credited"
Records refunds kind = kind ≡ "order_refunded"

abbrev pub add_coins : ℤ → Emby → Emby
add_coins amount u = record u { iv = some (or_zero u.iv +ℤ amount) }

abbrev pub Books : Change → RechargeOrder → Db → Db → Type 0
Books cancels o before after = Untouched before after
Books credits o before after = Posted before after o.tg iv (credit_of o) (add_coins (credit_of o))
Books refunds o before after =
    Posted before after o.tg iv (neg (credit_of o)) (add_coins (neg (credit_of o)))

-- One change of one order, with its entry in the billing ledger.
pub record Changed (change : Change) (o : RechargeOrder) (before after : Db) : Type 0 where
  pub order' : RechargeOrder
  pub entry : BillingEntry
  pub found : get_order o.id before ≡ some o
  pub was : o.status ≡ status_before change
  pub same_id : order'.id ≡ o.id
  pub becomes : order'.status ≡ status_after change
  pub orders : after.orders ≡ replace (is_order o.id) order' before.orders
  pub billing : after.billing ≡ entry ∷ before.billing
  pub entry_order : entry.order_id ≡ some o.id
  pub kind : Records change entry.entry_type
  pub same_coins : credit_of order' ≡ credit_of o
  pub same_tg : order'.tg ≡ o.tg
  pub books : Books change o before after

-- The status of an order that is answered without a change.
abbrev pub status_answered : Change → String
status_answered cancels = "credited"
status_answered credits = "credited"
status_answered refunds = "refunded"

-- A cancellation also hides the orders of other users.
abbrev pub Hidden : Change → String → Db → Type 0
Hidden cancels id db = Unit
Hidden credits id db = get_order id db ≡ none
Hidden refunds id db = get_order id db ≡ none

-- An answer without a change: there is no such order for the caller, or the order as it is.
abbrev pub Answered : Change → String → Db → Option Fields → Type 0
Answered change id db r =
    ((r ≡ none) × Hidden change id db)
    ⊎ ((o : RechargeOrder) × (get_order id db ≡ some o)
        × (o.status ≡ status_answered change)
        × (r ≡ some (serialize_order o)))

abbrev pub Done : Change → String → Db → Option Fields → Db → Type 0
Done change id before r after =
    (o : RechargeOrder) × (o.id ≡ id)
    × ((c : Changed change o before after) × (r ≡ some (serialize_order c.order')))

-- The outcome of a body; what a raise has written is rolled back.
abbrev pub Outcome : Change → String → Db → Result (Option Fields) × Db → Type 0
Outcome change id before (err e, s) = Unit
Outcome change id before (ok r, s) =
    ((s ≡ before) × Answered change id before r) ⊎ Done change id before r s

-- The outcome of a call.
abbrev pub Effect : Change → String → Db → Result (Option Fields) × Db → Type 0
Effect change id before (err e, s) = s ≡ before
Effect change id before (ok r, s) =
    ((s ≡ before) × Answered change id before r) ⊎ Done change id before r s

pub settle-Effect :
    (change : Change) (id : String) (before : Db) (out : Result (Option Fields) × Db)
    → Outcome change id before out
    → Effect change id before (settle out.0 before out.1)
settle-Effect change id before (err e, s) h = refl
settle-Effect change id before (ok r, s) h = h

module _ (row : RechargeOrder) (e : BillingEntry) (n : Notice) (d : Delivery) (actor : Actor)
    (action : String) (detail : Fields) where
  abbrev closed :
      List UserNotification → List OperationTask → List SystemEvent → List AuditLog → Db → Db
  closed ns ts es logs s = record s {
    billing = e ∷ s.billing;
    notifications = ns;
    tasks = ts;
    events = es;
    audits = logs;
  }

  abbrev Closed : Db → Result (Option Fields) × Db → Type 0
  Closed s out =
      (ns : List UserNotification) × (ts : List OperationTask) × (es : List SystemEvent)
      × (logs : List AuditLog) × (out ≡ (ok (some (serialize_order row)), closed ns ts es logs s))

  abbrev log_order : Exec Db (Option Fields)
  log_order = do
    audit actor action "recharge_order" (some row.id) "success" (some detail)
    order_event row
    pure (some (serialize_order row))

  close_order_cases :
      (s : Db)
      → Failed (close_order row e n d actor action detail s)
        ⊎ Closed s (close_order row e n d actor action detail s)
  unfolding close_order audit event
  close_order_cases s =
      let s' = record s { billing = e ∷ s.billing } in
      elim (add_notification-Notes n d s') [
        | inl (x, t, f) ↦ inl (x, t, bind_err (add_notification n d) (λ _. log_order) s' t x f)
        | inr (ns, ts, es, f) ↦ inr (
          ns,
          ts,
          (log_order (noted ns ts es s')).1.events,
          (log_order (noted ns ts es s')).1.audits,
          bind_ok (add_notification n d) (λ _. log_order) s' (noted ns ts es s') tt f,
        )
      ]

module _ (id : String) (db : Db) (o : RechargeOrder) (there : get_order id db ≡ some o) where
  pub id_of : o.id ≡ id
  id_of = (eq_iff o.id id).0 (first_holds (is_order id) db.orders there)

  pub found_of : get_order o.id db ≡ some o
  found_of = ap (λ k. get_order k db) id_of ∙ there

  reject-Outcome :
      (admin_note : Option String) (actor : Actor) (now : DateTime) (d : Delivery)
      → o.status ≡ "pending"
      → Outcome cancels id db (reject o admin_note actor now d db)
  unfolding reject
  reject-Outcome admin_note actor now d was =
      let row = rejected_row o admin_note now in
      let s = record db { orders = replace (is_order row.id) row db.orders } in
      elim (close_order_cases row (rejection_entry row actor) _ d actor "billing.order.reject" _
        s) [
          | inl (x, t, e) ↦ subst (Outcome cancels id db) (sym e) tt
          | inr (ns, ts, es, logs, e) ↦ subst (Outcome cancels id db) (sym e) (
              inr (
                o,
                id_of,
                (
                  record {
                    order' = row;
                    entry = rejection_entry row actor;
                    found = found_of;
                    was = was;
                    same_id = refl;
                    becomes = refl;
                    orders = refl;
                    billing = refl;
                    entry_order = refl;
                    kind = (refl, refl);
                    same_coins = refl;
                    same_tg = refl;
                    books = record {
                      users = refl;
                      transactions = refl;
                      accounts = refl;
                      wallets = refl;
                    };
                  },
                  refl,
                ),
              ))
        ]

-- A change of an order that moves coins.
module _ (row : RechargeOrder) (u' : Emby) (p : Posting) (e : BillingEntry) (n : Notice)
    (d : Delivery) (actor : Actor) (action : String) (detail : Fields) (db : Db) where
  abbrev money : Exec Db (Option Fields)
  money = do
    save_user u'
    save_order row
    point_transaction p
    close_order row e n d actor action detail

  abbrev saved : Db
  saved = record db {
    users = replace (has_tg u'.tg) u' db.users;
    orders = replace (is_order row.id) row db.orders;
  }

  money_cases : Failed (money db) ⊎ Closed row e n d actor action detail (booked p saved) (money db)
  money_cases =
      let rest : Exec Db (Option Fields) = close_order row e n d actor action detail in
      elim (point_transaction_cases p saved) [
        | inl (t, f) ↦
            inl (integrity_error, t, bind_err (point_transaction p) (λ _. rest) saved t _ f)
        | inr f ↦
            let run = bind_ok (point_transaction p) (λ _. rest) saved (booked p saved) tt f in
            elim (close_order_cases row e n d actor action detail (booked p saved)) [
              | inl (x, t, g) ↦ inl (x, t, run ∙ g)
              | inr (ns, ts, es, logs, g) ↦ inr (ns, ts, es, logs, run ∙ g)
            ]
      ]

module _ (id : String) (db : Db) (o : RechargeOrder) (there : get_order id db ≡ some o)
    (user : Emby) (owner : get_user o.tg db ≡ some user) where
  own : user.tg ≡ o.tg
  own = get_user-tg o.tg db user owner

  credit-Outcome :
      (payment_reference admin_note : Option String) (now : DateTime) (actor : Actor) (d : Delivery)
      → o.status ≡ "pending"
      → Outcome credits id db (
          credit
            (credited_row o payment_reference admin_note now)
            user
            (or_zero user.iv +ℤ credit_of o)
            actor
            d
            db)
  unfolding credit
  credit-Outcome payment_reference admin_note now actor d was =
      let row = credited_row o payment_reference admin_note now in
      let v = or_zero user.iv +ℤ credit_of o in
      let u' = record user { iv = some v } in
      let p = credit_posting row v actor in
      elim (money_cases row u' p (credit_entry row actor) _ d actor "billing.order.approve" _ db) [
        | inl (x, t, e) ↦ subst (Outcome credits id db) (sym e) tt
        | inr (ns, ts, es, logs, e) ↦ subst (Outcome credits id db) (sym e) (
            inr (
              o,
              id_of id db o there,
              (
                record {
                  order' = row;
                  entry = credit_entry row actor;
                  found = found_of id db o there;
                  was = was;
                  same_id = refl;
                  becomes = refl;
                  orders = refl;
                  billing = refl;
                  entry_order = refl;
                  kind = refl;
                  same_coins = refl;
                  same_tg = refl;
                  books = record {
                    user = user;
                    user' = u';
                    entry = transaction_of db.next_transaction (by_legacy_tg o.tg db) p;
                    found = owner;
                    changed = refl;
                    same_tg = refl;
                    users = refl;
                    moved = refl;
                    others = refl;
                    transactions = refl;
                    entry_tg = sym own;
                    entry_type = refl;
                    entry_amount = refl;
                    entry_after = refl;
                    accounts = refl;
                    wallets = rw own refl;
                  };
                },
                refl,
              ),
            ))
      ]

  pub refund-Outcome :
      (reason : String) (now : DateTime) (actor : Actor) (d : Delivery)
      → o.status ≡ "credited"
      → Outcome refunds id db (
          give_back
            (refunded_row o reason now)
            user
            (or_zero user.iv -ℤ credit_of o)
            reason
            actor
            d
            db)
  unfolding give_back
  refund-Outcome reason now actor d was =
      let row = refunded_row o reason now in
      let v = or_zero user.iv -ℤ credit_of o in
      let u' = record user { iv = some v } in
      let p = refund_posting row v reason actor in
      elim (money_cases row u' p (refund_entry row reason actor) _ d actor "billing.order.refund" _
        db) [
          | inl (x, t, e) ↦ subst (Outcome refunds id db) (sym e) tt
          | inr (ns, ts, es, logs, e) ↦ subst (Outcome refunds id db) (sym e) (
              inr (
                o,
                id_of id db o there,
                (
                  record {
                    order' = row;
                    entry = refund_entry row reason actor;
                    found = found_of id db o there;
                    was = was;
                    same_id = refl;
                    becomes = refl;
                    orders = refl;
                    billing = refl;
                    entry_order = refl;
                    kind = refl;
                    same_coins = refl;
                    same_tg = refl;
                    books = record {
                      user = user;
                      user' = u';
                      entry = transaction_of db.next_transaction (by_legacy_tg o.tg db) p;
                      found = owner;
                      changed = rw (+ℤ_neg (or_zero user.iv) (credit_of o)) refl;
                      same_tg = refl;
                      users = refl;
                      moved = sym (+ℤ_neg (or_zero user.iv) (credit_of o));
                      others = refl;
                      transactions = refl;
                      entry_tg = sym own;
                      entry_type = refl;
                      entry_amount = refl;
                      entry_after = refl;
                      accounts = refl;
                      wallets = rw own refl;
                    };
                  },
                  refl,
                ),
              ))
        ]

abbrev pub decided : Decision → Change
decided d = if d.approve then credits else cancels

module _ (id : String) (db : Db) where
  approve-Outcome :
      (d : Decision) (o : RechargeOrder) (u : Option Emby)
      → get_order id db ≡ some o
      → o.status ≡ "pending"
      → get_user o.tg db ≡ u
      → Outcome credits id db (
          approve_user
            (credited_row o d.payment_reference d.admin_note d.now)
            d.actor
            d.delivery
            u
            db)
  approve-Outcome d o none there was owner = tt
  approve-Outcome d o (some user) there was owner =
      elim (Bool-cases (ltb_ℤ max_int_value (or_zero user.iv +ℤ credit_of o))) [
        | inl e ↦ rw e tt
        | inr e ↦ rw e (
            credit-Outcome id db o there user owner d.payment_reference d.admin_note d.now d.actor
              d.delivery was)
      ]

  hidden : (d : Decision) → get_order id db ≡ none → Hidden (decided d) id db
  hidden d h = elim (Bool-cases d.approve) [ inl a ↦ rw a h | inr a ↦ rw a tt ]

  answered :
      (d : Decision) (o : RechargeOrder)
      → o.status ≡ "credited"
      → o.status ≡ status_answered (decided d)
  answered d o h = elim (Bool-cases d.approve) [ inl a ↦ rw a h | inr a ↦ rw a h ]

  decide_found-Outcome :
      (d : Decision) (o : Option RechargeOrder)
      → get_order id db ≡ o
      → Outcome (decided d) id db (decide_found d o db)
  decide_found-Outcome d none there = inl (refl, inl (refl, hidden d there))
  decide_found-Outcome d (some o) there = elim (Bool-cases (o.status == "credited")) [
    | inl e ↦
        rw e (inl (refl, inr (o, there, answered d o ((eq_iff o.status "credited").0 e), refl)))
    | inr e ↦ elim (Bool-cases (o.status == "pending")) [
      | inr f ↦ rw (e, f) tt
      | inl f ↦
          let was = (eq_iff o.status "pending").0 f in
          elim (Bool-cases d.approve) [
            | inl a ↦ rw (e, f, a) (approve-Outcome d o (get_user o.tg db) there was refl)
            | inr a ↦
                rw (e, f, a)
                  (reject-Outcome id db o there d.admin_note d.actor d.now d.delivery was)
          ]
    ]
  ]

  -- The outcome of `decide_order`.
  pub decide_order-Effect : (d : Decision) → Effect (decided d) id db (decide_order id d db)
  unfolding decide_order
  decide_order-Effect d =
      settle-Effect (decided d) id db (decide_found d (get_order id db) db)
        (decide_found-Outcome d (get_order id db) refl)
