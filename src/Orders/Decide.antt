-- ===== src/Orders/Decide.antt =====
-- The review of an order and its refund: `decide_order` and `refund_order` of
-- application/commerce_service.py.
use sakura_embyboss.Prelude.{
  ℤ, pos, ◌+ℤ◌, ◌-ℤ◌, neg, ltb_ℤ, ltb, or_zero, String, Bool, not, Option, none, some, [], ◌∷◌,
  ◌==◌, eq_int, eq_string, if◌then◌else◌, str_append, str_int, str_len, str_take, str_strip,
  stripped,
}
use sakura_embyboss.Exec.{
  Exec, pure, raise, gets, transaction, runtime_error, value_error, overflow_error, ◌>>=◌, ◌>>◌,
}
use sakura_embyboss.Database.{
  Db, DateTime, num, text, Fields, Actor, Emby, get_user, RechargeOrder, BillingEntry,
}
use sakura_embyboss.Operations.{audit, event, Posting, point_transaction}
use sakura_embyboss.Points.{max_int_value, save_user}
use sakura_embyboss.Codes.{text_value}
use sakura_embyboss.Notifications.{Delivery, Notice, add_notification}
use sakura_embyboss.Orders.{
  get_order, save_order, add_billing_entry, serialize_order, entry, order_event,
}

-- The message to the user of an order.
abbrev pub order_notice : RechargeOrder → String → String → String → Notice
order_notice o title body severity = record {
  tg = o.tg;
  category = "billing";
  title = title;
  body = body;
  severity = severity;
  action_url = some "/billing";
  metadata = some (("order_id", text o.id) ∷ ("status", text o.status) ∷ []);
}

-- What a decision writes beside the order: the ledger, the message, the audit row and the event.
unfoldable pub close_order :
    RechargeOrder
    → BillingEntry
    → Notice
    → Delivery
    → Actor
    → String
    → Fields
    → Exec Db (Option Fields)
unfolding audit event
close_order row billing_entry notice delivery actor action detail = do
  add_billing_entry billing_entry
  add_notification notice delivery
  audit actor action "recharge_order" (some row.id) "success" (some detail)
  order_event row
  pure (some (serialize_order row))

abbrev pub decision_metadata : RechargeOrder → Fields
decision_metadata o =
    ("payment_reference", text_value o.payment_reference)
    ∷ ("admin_note", text_value o.admin_note)
    ∷ []

abbrev pub decision_detail : RechargeOrder → Fields
decision_detail o = ("order_no", text o.order_no) ∷ ("tg", num o.tg) ∷ []

abbrev pub remark : Option String → String
remark none = ""
remark (some s) = if s == "" then "" else str_append " 备注：" s

abbrev pub rejected_row : RechargeOrder → Option String → DateTime → RechargeOrder
rejected_row o admin_note now = record o {
  admin_note = stripped admin_note;
  status = "canceled";
  canceled_at = some now;
  updated_at = now;
}

abbrev pub rejection_entry : RechargeOrder → Actor → BillingEntry
rejection_entry row actor =
    entry row "order_rejected" row.amount_cents (pos 0)
      (str_append "充值订单 " (str_append row.order_no " 未通过")) actor (some (decision_metadata row))

-- The branch `not approve`.
unfoldable pub reject :
    RechargeOrder → Option String → Actor → DateTime → Delivery → Exec Db (Option Fields)
unfolding close_order
reject o admin_note actor now delivery = do
  let row = rejected_row o admin_note now
  save_order row
  close_order row (rejection_entry row actor)
      (order_notice row "充值订单未通过"
        (str_append "订单 " (str_append row.order_no (str_append " 未通过审核。" (remark row.admin_note))))
        "warning")
      delivery actor "billing.order.reject" (decision_detail row)

abbrev pub credit_of : RechargeOrder → ℤ
credit_of o = o.coins +ℤ o.bonus_coins

abbrev pub credited_row : RechargeOrder → Option String → Option String → DateTime → RechargeOrder
credited_row o payment_reference admin_note now = record o {
  admin_note = stripped admin_note;
  status = "credited";
  payment_reference = stripped payment_reference;
  paid_at = some now;
  credited_at = some now;
  updated_at = now;
}

abbrev pub credit_posting : RechargeOrder → ℤ → Actor → Posting
credit_posting row balance actor = record {
  tg = row.tg;
  balance_type = "coins";
  amount = credit_of row;
  balance_after = balance;
  reason = str_append "recharge:" row.order_no;
  actor = actor;
  idempotency_key = some (str_append "recharge:" row.id);
  metadata = some (("order_id", text row.id) ∷ ("amount_cents", num row.amount_cents) ∷ []);
}

abbrev pub credit_entry : RechargeOrder → Actor → BillingEntry
credit_entry row actor =
    entry row "order_credited" row.amount_cents (credit_of row)
      (str_append "充值订单 " (str_append row.order_no " 已确认并入账")) actor (some (decision_metadata row))

-- The branch `approve`, behind the test of the new balance.
unfoldable pub credit : RechargeOrder → Emby → ℤ → Actor → Delivery → Exec Db (Option Fields)
unfolding close_order
credit row user balance actor delivery = do
  save_user (record user { iv = some balance })
  save_order row
  point_transaction (credit_posting row balance actor)
  close_order row (credit_entry row actor)
      (order_notice row "充值已入账"
        (str_append "订单 " (
          str_append row.order_no
            (str_append " 已确认，" (str_append (str_int (credit_of row)) " 积分已到账。"))))
        "success")
      delivery actor "billing.order.approve" (decision_detail row)

abbrev pub approve_user : RechargeOrder → Actor → Delivery → Option Emby → Exec Db (Option Fields)
approve_user row actor delivery none = raise value_error
approve_user row actor delivery (some user) =
    let balance = or_zero user.iv +ℤ credit_of row in
    if ltb_ℤ max_int_value balance
    then raise overflow_error
    else credit row user balance actor delivery

-- The administrator's decision and its notes.
pub record Decision : Type 0 where
  pub approve : Bool
  pub payment_reference : Option String
  pub admin_note : Option String
  pub actor : Actor
  pub now : DateTime
  pub delivery : Delivery

abbrev pub decide_pending : Decision → RechargeOrder → Exec Db (Option Fields)
decide_pending d o =
    if d.approve
    then gets (get_user o.tg)
      >>= approve_user (credited_row o d.payment_reference d.admin_note d.now) d.actor d.delivery
    else reject o d.admin_note d.actor d.now d.delivery

abbrev pub decide_found : Decision → Option RechargeOrder → Exec Db (Option Fields)
decide_found d none = pure none
decide_found d (some o) =
    if o.status == "credited"
    then pure (some (serialize_order o))
    else if not (o.status == "pending")
    then raise runtime_error
    else decide_pending d o

-- `decide_order`
unfoldable pub decide_order : String → Decision → Exec Db (Option Fields)
unfolding credit reject
decide_order order_id d = transaction (gets (get_order order_id) >>= decide_found d)

abbrev pub refunded_row : RechargeOrder → String → DateTime → RechargeOrder
refunded_row o reason now = record o {
  status = "refunded";
  admin_note = some (str_take 500 reason);
  canceled_at = some now;
  updated_at = now;
}

abbrev pub refund_posting : RechargeOrder → ℤ → String → Actor → Posting
refund_posting row balance reason actor = record {
  tg = row.tg;
  balance_type = "coins";
  amount = neg (credit_of row);
  balance_after = balance;
  reason = str_append "refund:" row.order_no;
  actor = actor;
  idempotency_key = some (str_append "refund:" row.id);
  metadata = some (
      ("order_id", text row.id)
      ∷ ("amount_cents", num row.amount_cents)
      ∷ ("reason", text reason)
      ∷ []);
}

abbrev pub refund_entry : RechargeOrder → String → Actor → BillingEntry
refund_entry row reason actor =
    entry row "order_refunded" (neg row.amount_cents) (neg (credit_of row))
      (str_append "充值订单 " (str_append row.order_no " 已退款冲正")) actor
      (some (("reason", text reason) ∷ []))

unfoldable pub give_back :
    RechargeOrder → Emby → ℤ → String → Actor → Delivery → Exec Db (Option Fields)
unfolding close_order
give_back row user balance reason actor delivery = do
  save_user (record user { iv = some balance })
  save_order row
  point_transaction (refund_posting row balance reason actor)
  close_order row (refund_entry row reason actor)
      (order_notice row "充值订单已退款"
        (str_append "订单 " (
          str_append row.order_no (
            str_append " 已退款并冲正 "
              (str_append (str_int (credit_of row)) (str_append " 积分。原因：" reason)))))
        "warning")
      delivery actor "billing.order.refund"
      (("order_no", text row.order_no)
        ∷ ("tg", num row.tg)
        ∷ ("coins", num (credit_of row))
        ∷ ("reason", text reason)
        ∷ [])

abbrev pub refund_user :
    RechargeOrder → String → Actor → Delivery → Option Emby → Exec Db (Option Fields)
refund_user row reason actor delivery none = raise value_error
refund_user row reason actor delivery (some user) =
    let balance = or_zero user.iv -ℤ credit_of row in
    if ltb_ℤ (or_zero user.iv) (credit_of row)
    then raise runtime_error
    else give_back row user balance reason actor delivery

abbrev pub refund_found :
    String → Actor → DateTime → Delivery → Option RechargeOrder → Exec Db (Option Fields)
refund_found reason actor now delivery none = pure none
refund_found reason actor now delivery (some o) =
    if o.status == "refunded"
    then pure (some (serialize_order o))
    else if not (o.status == "credited")
    then raise runtime_error
    else gets (get_user o.tg) >>= refund_user (refunded_row o reason now) reason actor delivery

-- `refund_order`
unfoldable pub refund_order :
    String → String → Actor → DateTime → Delivery → Exec Db (Option Fields)
unfolding give_back
refund_order order_id reason actor now delivery =
    if ltb (str_len (str_strip reason)) 3
    then raise value_error
    else transaction
        (gets (get_order order_id) >>= refund_found (str_strip reason) actor now delivery)
