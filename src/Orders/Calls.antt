-- ===== src/Orders/Calls.antt =====
-- The calls of `CommerceService` on orders, in any order: each leaves the orders as they are, places
-- one, or makes one change of one order.
use sakura_embyboss.Prelude.{
  ℤ, pos, or_zero, ltb, ltb_ℤ, String, Bool, false, ◌||◌, ◌≡◌, refl, sym, subst, ◌⊎◌, inl, inr,
  Option, none, some, List, ◌∷◌, ◌==◌, eq_string, eq_int, first, is_some, Bool-cases, str_len,
  str_strip, map, str_append, ◌+ℤ◌,
}
use text.Mathlib.TextEquality.{eq_iff}
use sakura_embyboss.Exec.{
  Exec, Result, ok, err, settle, bind_ok, bind_err, integrity_error, pure, ◌>>◌,
}
use sakura_embyboss.Database.{
  Db, DateTime, Fields, Actor, Emby, get_user, RechargeOrder, RechargeProduct, BillingEntry,
}
use sakura_embyboss.Operations.{audit, event}
use sakura_embyboss.Operations.Booking.{Raises}
use sakura_embyboss.Products.{get_product}
use sakura_embyboss.Books.{Untouched}
use sakura_embyboss.Notifications.{Delivery}
use sakura_embyboss.Orders.{
  is_order, get_order, serialize_order, has_order_no, add_order, save_order_result, has_result,
  dates_as_text, new_order, order_no_of, note_order, place_order, create_from, create_unless,
  create_order, find_order_result, canceled_row, write_canceled, cancel_found, cancel_order, entry,
}
use sakura_embyboss.Orders.Decide.{
  Decision, decide_order, refunded_row, refund_user, refund_found, refund_order, credit_of,
}
use sakura_embyboss.Orders.Effects.{
  Change, cancels, refunds, Records, Changed, Outcome, Effect, settle-Effect, decided,
  decide_order-Effect, refund-Outcome, id_of, found_of,
}

module _ (id : String) (db : Db) where
  refund_user-Outcome :
      (reason : String) (actor : Actor) (now : DateTime) (d : Delivery) (o : RechargeOrder)
      (u : Option Emby)
      → get_order id db ≡ some o
      → o.status ≡ "credited"
      → get_user o.tg db ≡ u
      → Outcome refunds id db (refund_user (refunded_row o reason now) reason actor d u db)
  refund_user-Outcome reason actor now d o none there was owner = tt
  refund_user-Outcome reason actor now d o (some user) there was owner =
      elim (Bool-cases (ltb_ℤ (or_zero user.iv) (credit_of o))) [
        | inl e ↦ rw e tt
        | inr e ↦ rw e (refund-Outcome id db o there user owner reason now actor d was)
      ]

  refund_found-Outcome :
      (reason : String) (actor : Actor) (now : DateTime) (d : Delivery) (o : Option RechargeOrder)
      → get_order id db ≡ o
      → Outcome refunds id db (refund_found reason actor now d o db)
  refund_found-Outcome reason actor now d none there = inl (refl, inl (refl, there))
  refund_found-Outcome reason actor now d (some o) there =
      elim (Bool-cases (o.status == "refunded")) [
        | inl e ↦ rw e (inl (refl, inr (o, there, (eq_iff o.status "refunded").0 e, refl)))
        | inr e ↦ elim (Bool-cases (o.status == "credited")) [
          | inr f ↦ rw (e, f) tt
          | inl f ↦
              rw (e, f)
                (refund_user-Outcome reason actor now d o (get_user o.tg db) there
                  ((eq_iff o.status "credited").0 f) refl)
        ]
      ]

  -- The outcome of `refund_order`.
  pub refund_order-Effect :
      (reason : String) (actor : Actor) (now : DateTime) (d : Delivery)
      → Effect refunds id db (refund_order id reason actor now d db)
  unfolding refund_order
  refund_order-Effect reason actor now d = elim (Bool-cases (ltb (str_len (str_strip reason)) 3)) [
    | inl e ↦ rw e refl
    | inr e ↦ rw e (
        settle-Effect refunds id db
          (refund_found (str_strip reason) actor now d (get_order id db) db)
          (refund_found-Outcome (str_strip reason) actor now d (get_order id db) refl))
  ]

  cancel_found-Outcome :
      (tg : ℤ) (actor : Actor) (now : DateTime) (o : Option RechargeOrder)
      → get_order id db ≡ o
      → Outcome cancels id db (cancel_found tg actor now o db)
  unfolding write_canceled audit event
  cancel_found-Outcome tg actor now none there = inl (refl, inl (refl, tt))
  cancel_found-Outcome tg actor now (some o) there = elim (Bool-cases (o.tg == tg)) [
    | inr e ↦ rw e (inl (refl, inl (refl, tt)))
    | inl e ↦ elim (Bool-cases (o.status == "pending")) [
      | inr f ↦ rw (e, f) tt
      | inl f ↦
          rw (e, f)
            (inr (
              o,
              id_of id db o there,
              (
                record {
                  order' = canceled_row o now;
                  entry =
                      entry (canceled_row o now) "order_canceled" o.amount_cents (pos 0)
                        (str_append "用户取消充值订单 " o.order_no) actor none;
                  found = found_of id db o there;
                  was = (eq_iff o.status "pending").0 f;
                  same_id = refl;
                  becomes = refl;
                  orders = refl;
                  billing = refl;
                  entry_order = refl;
                  kind = (refl, refl);
                  same_coins = refl;
                  same_tg = refl;
                  books = record {
                    users = refl;
                    transactions = refl;
                    accounts = refl;
                    wallets = refl;
                  };
                },
                refl,
              ),
            ))
    ]
  ]

  -- The outcome of `cancel_order`.
  pub cancel_order-Effect :
      (tg : ℤ) (actor : Actor) (now : DateTime)
      → Effect cancels id db (cancel_order id tg actor now db)
  unfolding cancel_order
  cancel_order-Effect tg actor now =
      settle-Effect cancels id db (cancel_found tg actor now (get_order id db) db)
        (cancel_found-Outcome tg actor now (get_order id db) refl)

-- A new order, with its entry in the billing ledger.
pub record Placed (before after : Db) : Type 0 where
  pub order : RechargeOrder
  pub entry : BillingEntry
  pub absent : get_order order.id before ≡ none
  pub pending : order.status ≡ "pending"
  pub orders : after.orders ≡ order ∷ before.orders
  pub billing : after.billing ≡ entry ∷ before.billing
  pub entry_order : entry.order_id ≡ some order.id
  pub kind : Records cancels entry.entry_type
  pub quiet : Untouched before after

abbrev pub Creates : Db → Result (Option Fields) × Db → Type 0
Creates before (err e, s) = Unit
Creates before (ok r, s) = (s ≡ before) ⊎ Placed before s

save_order_result_cases :
    (key : Option String) (r : Fields) (db : Db)
    → Raises (save_order_result key r db)
      ⊎ ((rs : List (String × Fields)) × (save_order_result key r db
            ≡ (ok tt, record db { order_results = rs })))
unfolding save_order_result
save_order_result_cases none r db = inr (db.order_results, refl)
save_order_result_cases (some key) r db = elim (Bool-cases (key == "")) [
  | inl e ↦ inr (db.order_results, rw e refl)
  | inr e ↦ elim (Bool-cases (is_some (first (has_result key) db.order_results))) [
    | inl f ↦ inl (db, rw (e, f) refl)
    | inr f ↦ inr ((key, map dates_as_text r) ∷ db.order_results, rw (e, f) refl)
  ]
]

absent_of : {A : Type 0} (o : Option A) (b : Bool) → (is_some o || b) ≡ false → o ≡ none
absent_of none b h = refl
absent_of (some a) b h = cc

-- The entry of a new order.
abbrev placing : RechargeOrder → Actor → BillingEntry
placing row actor =
    entry row "order_created" row.amount_cents (row.coins +ℤ row.bonus_coins)
      (str_append "创建充值订单 " row.order_no) actor none

module _ (row : RechargeOrder) (actor : Actor) (key : Option String) (db : Db)
    (pending : row.status ≡ "pending") where
  finish-Creates :
      (r : Fields) (s : Db)
      → ((rs : List (String × Fields)) → Placed db (record s { order_results = rs }))
      → Creates db ((save_order_result key r >> pure (some r)) s)
  finish-Creates r s placed = elim (save_order_result_cases key r s) [
    | inl (t, e) ↦
        subst (Creates db)
          (sym (bind_err (save_order_result key r) (λ _. pure (some r)) s t integrity_error e)) tt
    | inr (rs, e) ↦
        subst (Creates db)
          (sym (
            bind_ok (save_order_result key r) (λ _. pure (some r)) s
              (record s { order_results = rs }) tt e))
          (inr (placed rs))
  ]

  note_order-Creates :
      get_order row.id db ≡ none
      → Creates db (note_order row actor key (record db { orders = row ∷ db.orders }))
  unfolding note_order audit event
  note_order-Creates absent = finish-Creates (serialize_order row) _ (λ rs. record {
    order = row;
    entry = placing row actor;
    absent = absent;
    pending = pending;
    orders = refl;
    billing = refl;
    entry_order = refl;
    kind = (refl, refl);
    quiet = record { users = refl; transactions = refl; accounts = refl; wallets = refl };
  })

  place_order-Creates : Creates db (place_order row actor key db)
  unfolding add_order
  place_order-Creates =
      elim (Bool-cases (
        is_some (first (is_order row.id) db.orders)
        || is_some (first (has_order_no row.order_no) db.orders))) [
          | inl f ↦
              let run : add_order row db ≡ (err integrity_error, db) = rw f refl in
              subst (Creates db)
                (sym (bind_err (add_order row) (λ _. note_order row actor key) db db _ run)) tt
          | inr f ↦
              let s = record db { orders = row ∷ db.orders } in
              let run : add_order row db ≡ (ok tt, s) = rw f refl in
              subst (Creates db)
                (sym (bind_ok (add_order row) (λ _. note_order row actor key) db s tt run))
                (note_order-Creates (absent_of _ _ f))
        ]

module _ (tg product_id : ℤ) (user_note : Option String) (actor : Actor) (key : Option String)
    (now : DateTime) (id stamp : String) (db : Db) where
  create_from-Creates :
      (p : Option RechargeProduct)
      → Creates db (create_from tg user_note actor key now id stamp p db)
  create_from-Creates none = inl refl
  create_from-Creates (some p) = elim (Bool-cases p.enabled) [
    | inl e ↦ rw e (
        place_order-Creates (new_order tg p user_note now id (order_no_of stamp id)) actor key db
          refl)
    | inr e ↦ rw e (inl refl)
  ]

  create_unless-Creates :
      (replay : Option Fields)
      → Creates db (
          create_unless replay
            (λ s. create_from tg user_note actor key now id stamp (get_product product_id s) s)
            db)
  create_unless-Creates none = create_from-Creates (get_product product_id db)
  create_unless-Creates (some replay) = inl refl

-- A call of the service.
pub data OrderCall : Type 0 where
  creates : ℤ → ℤ → Option String → Actor → Option String → DateTime → String → String → OrderCall
  decides : String → Decision → OrderCall
  withdraws : String → ℤ → Actor → DateTime → OrderCall
  gives_back : String → String → Actor → DateTime → Delivery → OrderCall

abbrev pub run_order : OrderCall → Exec Db (Option Fields)
run_order (creates tg product_id user_note actor key now id stamp) =
    create_order tg product_id user_note actor key now id stamp
run_order (decides id d) = decide_order id d
run_order (withdraws id tg actor now) = cancel_order id tg actor now
run_order (gives_back id reason actor now d) = refund_order id reason actor now d

-- What a call does to the orders.
pub data OrderMove (before after : Db) : Type 0 where
  keeps : after ≡ before → OrderMove before after
  places : Placed before after → OrderMove before after
  changes :
      (change : Change) (o : RechargeOrder) → Changed change o before after → OrderMove before after

Effect-Move :
    (change : Change) (id : String) (db : Db) (out : Result (Option Fields) × Db)
    → Effect change id db out
    → OrderMove db out.1
Effect-Move change id db (err e, s) h = keeps h
Effect-Move change id db (ok r, s) (inl h) = keeps h.0
Effect-Move change id db (ok r, s) (inr (o, h, d)) = changes change o d.0

Creates-Move :
    (db : Db) (out : Result (Option Fields) × Db)
    → Creates db out
    → OrderMove db (settle out.0 db out.1).1
Creates-Move db (err e, s) h = keeps refl
Creates-Move db (ok r, s) (inl h) = keeps h
Creates-Move db (ok r, s) (inr p) = places p

pub run_order-Move : (c : OrderCall) (db : Db) → OrderMove db (run_order c db).1
unfolding create_order
run_order-Move (creates tg product_id user_note actor key now id stamp) db = Creates-Move db _ (
    create_unless-Creates tg product_id user_note actor key now id stamp db
      (find_order_result key db.order_results))
run_order-Move (decides id d) db =
    Effect-Move (decided d) id db (decide_order id d db) (decide_order-Effect id db d)
run_order-Move (withdraws id tg actor now) db =
    Effect-Move cancels id db (cancel_order id tg actor now db)
      (cancel_order-Effect id db tg actor now)
run_order-Move (gives_back id reason actor now d) db =
    Effect-Move refunds id db (refund_order id reason actor now d db)
      (refund_order-Effect id db reason actor now d)
