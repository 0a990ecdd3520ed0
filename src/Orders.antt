-- ===== src/Orders.antt =====
-- `CommerceService` of application/commerce_service.py: recharge orders and the billing ledger.
-- `now` is the clock reading of a call, `id` its fresh `uuid4()`, and `stamp` the text of
-- `now.strftime('%y%m%d%H%M')`.
mod Tests
pub mod Decide
pub mod Effects
pub mod Calls
pub mod Ledger
pub mod Lifecycle
pub mod Refund
pub mod Summary
pub mod Health
use sakura_embyboss.Prelude.{
  ℕ, ℤ, pos, ◌+ℤ◌, ◌-ℤ◌, neg, ltb_ℤ, ◌+◌, ltb, or_zero, String, Bool, true, false, not, ◌&&◌, ◌||◌,
  Option, none, some, List, [], ◌∷◌, map, ◌==◌, eq_int, eq_string, if◌then◌else◌, truthy, first,
  replace, is_some, str_append, str_int, str_len, str_take, str_strip, stripped, hex_upper,
}
use sakura_embyboss.Exec.{
  Exec, pure, raise, gets, modify, transaction, runtime_error, value_error, overflow_error,
  integrity_error, ◌>>=◌, ◌>>◌,
}
use sakura_embyboss.Database.{
  Db, DateTime, Value, null, flag, num, text, time, str_time, Fields, Actor, Emby, has_tg, get_user,
  RechargeProduct, RechargeOrder, BillingEntry,
}
use sakura_embyboss.Operations.{audit, event, Posting, point_transaction}
use sakura_embyboss.Points.{max_int_value, save_user}
use sakura_embyboss.Codes.{text_value, int_value, date_value}
use sakura_embyboss.Notifications.{Delivery, Notice, add_notification}
use sakura_embyboss.Products.{get_product}

abbrev pub is_order : String → RechargeOrder → Bool
is_order id o = o.id == id

-- `CommerceRepository.get_order`
abbrev pub get_order : String → Db → Option RechargeOrder
get_order id db = first (is_order id) db.orders

abbrev pub save_order : RechargeOrder → Exec Db (Unit {0})
save_order o = modify (λ (s : Db). record s { orders = replace (is_order o.id) o s.orders })

-- `add_billing_entry`
abbrev pub add_billing_entry : BillingEntry → Exec Db (Unit {0})
add_billing_entry e = modify (λ (s : Db). record s { billing = e ∷ s.billing })

unfoldable pub serialize_order : RechargeOrder → Fields
serialize_order row =
    ("id", text row.id)
    ∷ ("order_no", text row.order_no)
    ∷ ("tg", num row.tg)
    ∷ ("product_id", int_value row.product_id)
    ∷ ("product_name", text row.product_name)
    ∷ ("amount_cents", num row.amount_cents)
    ∷ ("coins", num row.coins)
    ∷ ("bonus_coins", num row.bonus_coins)
    ∷ ("payment_method", text row.payment_method)
    ∷ ("payment_reference", text_value row.payment_reference)
    ∷ ("status", text row.status)
    ∷ ("user_note", text_value row.user_note)
    ∷ ("admin_note", text_value row.admin_note)
    ∷ ("created_at", time row.created_at)
    ∷ ("paid_at", date_value row.paid_at)
    ∷ ("credited_at", date_value row.credited_at)
    ∷ ("canceled_at", date_value row.canceled_at)
    ∷ ("updated_at", time row.updated_at)
    ∷ []

abbrev pub dates_as_text : String × Value → String × Value
dates_as_text (k, time t) = (k, str_time t)
dates_as_text (k, v) = (k, v)

abbrev pub has_result : String → String × Fields → Bool
has_result key r = r.0 == key

abbrev pub value_of : Option (String × Fields) → Option Fields
value_of none = none
value_of (some r) = some r.1

-- `get_idempotent_result("billing.order.create", key)`
unfoldable pub find_order_result : Option String → List (String × Fields) → Option Fields
find_order_result none rows = none
find_order_result (some key) rows =
    if key == "" then none else value_of (first (has_result key) rows)

-- `save_idempotent_result("billing.order.create", key, result)`, which writes dates by `str`.
unfoldable pub save_order_result : Option String → Fields → Exec Db (Unit {0})
save_order_result none r db = pure tt db
save_order_result (some key) r db =
    if key == ""
    then pure tt db
    else if is_some (first (has_result key) db.order_results)
    then raise integrity_error db
    else modify
        (λ (s : Db). record s { order_results = (key, map dates_as_text r) ∷ s.order_results }) db

abbrev pub has_order_no : String → RechargeOrder → Bool
has_order_no order_no o = o.order_no == order_no

-- `add_order` at the flush, which checks the primary key and the number.
unfoldable pub add_order : RechargeOrder → Exec Db (Unit {0})
add_order o db =
    if is_some (first (is_order o.id) db.orders)
      || is_some (first (has_order_no o.order_no) db.orders)
    then raise integrity_error db
    else modify (λ (s : Db). record s { orders = o ∷ s.orders }) db

abbrev pub new_order :
    ℤ → RechargeProduct → Option String → DateTime → String → String → RechargeOrder
new_order tg product user_note now id order_no = record {
  id = id;
  order_no = order_no;
  tg = tg;
  product_id = some product.id;
  product_name = product.name;
  amount_cents = product.amount_cents;
  coins = product.coins;
  bonus_coins = product.bonus_coins;
  payment_method = "manual";
  payment_reference = none;
  status = "pending";
  user_note = stripped user_note;
  admin_note = none;
  created_at = now;
  paid_at = none;
  credited_at = none;
  canceled_at = none;
  updated_at = now;
}

-- A billing entry of an order.
abbrev pub entry : RechargeOrder → String → ℤ → ℤ → String → Actor → Option Fields → BillingEntry
entry o entry_type amount_cents coins description actor metadata = record {
  order_id = some o.id;
  tg = o.tg;
  entry_type = entry_type;
  amount_cents = some amount_cents;
  coins = some coins;
  description = description;
  actor_kind = actor.kind;
  actor_id = actor.identifier;
  metadata = metadata;
}

-- The payload of the event "billing.order.updated".
abbrev pub order_event : RechargeOrder → Exec Db (Unit {0})
order_event o = event "billing.order.updated" "user" (some (str_int o.tg)) (
    ("resource_type", text "recharge_order")
    ∷ ("resource_id", text o.id)
    ∷ ("tg", num o.tg)
    ∷ ("status", text o.status)
    ∷ [])

-- The order number `f"RC{stamp}{order_id[:6].upper()}"`
abbrev pub order_no_of : String → String → String
order_no_of stamp id = str_append "RC" (str_append stamp (hex_upper (str_take 6 id)))

-- What is written beside a new order.
unfoldable pub note_order : RechargeOrder → Actor → Option String → Exec Db (Option Fields)
unfolding audit event
note_order row actor idempotency_key = do
  add_billing_entry (
      entry row "order_created" row.amount_cents (row.coins +ℤ row.bonus_coins)
        (str_append "创建充值订单 " row.order_no) actor none)
  audit actor "billing.order.create" "recharge_order" (some row.id) "success"
      (some (("order_no", text row.order_no) ∷ ("amount_cents", num row.amount_cents) ∷ []))
  event "billing.order.created" "user" (some (str_int row.tg)) (
      ("resource_type", text "recharge_order")
      ∷ ("resource_id", text row.id)
      ∷ ("tg", num row.tg)
      ∷ ("order_no", text row.order_no)
      ∷ [])
  save_order_result idempotency_key (serialize_order row)
  pure (some (serialize_order row))

abbrev pub place_order : RechargeOrder → Actor → Option String → Exec Db (Option Fields)
place_order row actor idempotency_key = add_order row >> note_order row actor idempotency_key

-- `create_order` without an earlier result.
abbrev pub create_from :
    ℤ
    → Option String
    → Actor
    → Option String
    → DateTime
    → String
    → String
    → Option RechargeProduct
    → Exec Db (Option Fields)
create_from tg user_note actor idempotency_key now id stamp none = pure none
create_from tg user_note actor idempotency_key now id stamp (some product) =
    if product.enabled
    then place_order (new_order tg product user_note now id (order_no_of stamp id)) actor
        idempotency_key
    else pure none

abbrev pub create_unless : Option Fields → Exec Db (Option Fields) → Exec Db (Option Fields)
create_unless (some replay) body = pure (some replay)
create_unless none body = body

-- `create_order`
unfoldable pub create_order :
    ℤ
    → ℤ
    → Option String
    → Actor
    → Option String
    → DateTime
    → String
    → String
    → Exec Db (Option Fields)
create_order tg product_id user_note actor idempotency_key now id stamp = transaction do
  replay ← gets (λ db. find_order_result idempotency_key db.order_results)
  create_unless replay (
      gets (get_product product_id) >>= create_from tg user_note actor idempotency_key now id stamp)

-- The order that its user cancels.
abbrev pub canceled_row : RechargeOrder → DateTime → RechargeOrder
canceled_row o now = record o { status = "canceled"; canceled_at = some now; updated_at = now }

unfoldable pub write_canceled : RechargeOrder → Actor → DateTime → Exec Db (Option Fields)
unfolding audit event
write_canceled o actor now = do
  let row = canceled_row o now
  save_order row
  add_billing_entry (
      entry row "order_canceled" row.amount_cents (pos 0) (str_append "用户取消充值订单 " row.order_no)
        actor none)
  audit actor "billing.order.cancel" "recharge_order" (some row.id) "success" none
  order_event row
  pure (some (serialize_order row))

abbrev pub cancel_found : ℤ → Actor → DateTime → Option RechargeOrder → Exec Db (Option Fields)
cancel_found tg actor now none = pure none
cancel_found tg actor now (some o) =
    if not (o.tg == tg)
    then pure none
    else if not (o.status == "pending")
    then raise runtime_error
    else write_canceled o actor now

-- `cancel_order`
unfoldable pub cancel_order : String → ℤ → Actor → DateTime → Exec Db (Option Fields)
unfolding write_canceled
cancel_order order_id tg actor now =
    transaction (gets (get_order order_id) >>= cancel_found tg actor now)
