-- ===== src/Orders/Tests.antt =====
-- Runs of the order service on one product, and the theorems at these inputs.
use sakura_embyboss.Prelude.{
  ◌↔◌, All, pos, ◌+ℤ◌, ◌-ℤ◌, neg, true, false, ◌≡◌, refl, none, some, List, [], ◌∷◌, first, replace,
  str_int, str_strip, str_take, str_starts, stripped, str_len, eq_nat,
}
use sakura_embyboss.Exec.{ok}
use sakura_embyboss.Database.{Db, Emby, RechargeProduct, RechargeOrder, get_user}
use sakura_embyboss.Operations.{audit, event, point_transaction, mirror, clashes, put_wallet}
use sakura_embyboss.Points.{iv, us}
use sakura_embyboss.Points.Posted.{balance}
use sakura_embyboss.Tasks.{add_task}
use sakura_embyboss.Notifications.{
  Delivery, add_notification, deliver, put_inbox, put_telegram, safe_action_url,
}
use sakura_embyboss.Orders.{get_order, new_order, serialize_order}
use sakura_embyboss.Orders.Decide.{
  Decision, decide_order, refund_order, credit, close_order, give_back, credited_row, refunded_row,
  credit_of,
}
use sakura_embyboss.Orders.Calls.{OrderCall, creates, decides, gives_back}
use sakura_embyboss.Orders.Ledger.{
  count, Distinct, IsReconciled, run_orders, run_orders-IsReconciled,
}
use sakura_embyboss.Orders.Lifecycle.{Reaches, phase, run_orders-Refines}
use sakura_embyboss.Orders.Summary.{reconciliation_summary}
use sakura_embyboss.Orders.Health.{IsOld, reconciliation_lem}
use sakura_embyboss.Orders.Refund.{refund_restores, decide_all, approval_is_final}
use sakura_embyboss.Points.Tests.{admin, db as empty, user}

abbrev product : RechargeProduct
product = record {
  id = pos 3;
  name = "100 coins";
  description = none;
  amount_cents = pos 990;
  coins = pos 100;
  bonus_coins = pos 5;
  enabled = true;
  sort_order = pos 0;
  revision = pos 1;
  created_at = 1;
  updated_at = 1;
}

abbrev order : RechargeOrder
order = new_order (pos 7) product none 1000 "ab12cd34" "RC2611261430AB12CD"

abbrev shop : Db
shop = record empty { products = product ∷ [] }

abbrev db : Db
db = record shop { orders = order ∷ [] }

abbrev delivery : Delivery
delivery = record { now = 2001; notification_id = "n1"; task_id = "t1" }

abbrev later : Delivery
later = record { now = 3001; notification_id = "n2"; task_id = "t2" }

abbrev approval : Decision
approval = record {
  approve = true;
  payment_reference = some " pay-1 ";
  admin_note = none;
  actor = admin;
  now = 2000;
  delivery = delivery;
}

abbrev rejection : Decision
rejection = record approval { approve = false; delivery = later }

abbrev calls : List OrderCall
calls =
    creates (pos 7) (pos 3) none admin (some "k") 1000 "ab12cd34" "2611261430"
    ∷ decides "ab12cd34" approval
    ∷ decides "ab12cd34" rejection
    ∷ gives_back "ab12cd34" "by mistake" admin 3000 later
    ∷ []

shop-IsReconciled : IsReconciled shop
unfolding count first Distinct
shop-IsReconciled = record { distinct = tt; credited = λ id. refl; refunded = λ id. refl }

run_orders-IsReconciled_example : IsReconciled (run_orders calls shop)
run_orders-IsReconciled_example = run_orders-IsReconciled calls shop shop-IsReconciled

run_orders-Refines_example :
    Reaches
      (phase (get_order "ab12cd34" shop))
      (phase (get_order "ab12cd34" (run_orders calls shop)))
run_orders-Refines_example = run_orders-Refines calls shop "ab12cd34"

reconciliation_lem_example :
    let s = reconciliation_summary 90000000000 90000000001 (run_orders calls shop) in
    (s.credited_without_ledger ≡ 0)
    × (s.credited_without_ledger_ids ≡ [])
    × (s.duplicate_credit_entries ≡ 0)
    × ((s.status ≡ "healthy") ↔ All (λ o. ¬ IsOld 90000000000 o) (run_orders calls shop).orders)
reconciliation_lem_example = reconciliation_lem calls shop 90000000000 90000000001 shop-IsReconciled

abbrev paid_order : RechargeOrder
paid_order = credited_row order (some " pay-1 ") none 2000

order_there : get_order "ab12cd34" db ≡ some order
unfolding first
order_there = refl

approved : (decide_order "ab12cd34" approval db).0 ≡ ok (some (serialize_order paid_order))
unfolding decide_order credit close_order add_notification deliver put_inbox put_telegram add_task
    audit event point_transaction mirror clashes put_wallet first replace str_strip str_take
    stripped safe_action_url str_starts ◌+ℤ◌ str_int
approved = refl

abbrev back_order : RechargeOrder
back_order = refunded_row paid_order "by mistake" 3000

refunded :
    (refund_order "ab12cd34" "by mistake" admin 3000 later
      (decide_order "ab12cd34" approval db).1).0
    ≡ ok (some (serialize_order back_order))
unfolding decide_order refund_order give_back credit close_order add_notification deliver put_inbox
    put_telegram add_task audit event point_transaction mirror clashes put_wallet first replace
    str_strip str_take str_len stripped safe_action_url str_starts ◌+ℤ◌ ◌-ℤ◌ neg str_int
refunded = refl

owner : get_user (pos 7) db ≡ some user
unfolding first
owner = refl

abbrev richer : Emby
richer = record user { iv = some (pos 115) }

owner_paid : get_user (pos 7) (decide_order "ab12cd34" approval db).1 ≡ some richer
unfolding decide_order credit close_order add_notification deliver put_inbox put_telegram add_task
    audit event point_transaction mirror clashes put_wallet first replace str_strip str_take
    stripped safe_action_url str_starts ◌+ℤ◌ str_int
owner_paid = refl

owner_back :
    get_user
      (pos 7)
      (refund_order "ab12cd34" "by mistake" admin 3000 later
        (decide_order "ab12cd34" approval db).1).1
    ≡ some user
unfolding decide_order refund_order give_back credit close_order add_notification deliver put_inbox
    put_telegram add_task audit event point_transaction mirror clashes put_wallet first replace
    str_strip str_take str_len stripped safe_action_url str_starts ◌+ℤ◌ ◌-ℤ◌ neg str_int
owner_back = refl

refund_restores_example :
    ((balance iv richer ≡ balance iv user +ℤ credit_of order)
      × (balance us richer ≡ balance us user))
    × ((balance iv user ≡ balance iv user) × (balance us user ≡ balance us user))
refund_restores_example =
    refund_restores "ab12cd34" "by mistake" approval admin 3000 later db order user richer user
      (some (serialize_order paid_order)) (some (serialize_order back_order)) refl order_there refl
      approved refunded owner owner_paid owner_back

approval_is_final_example :
    let paid = (decide_order "ab12cd34" approval db).1 in
    (decide_all "ab12cd34" (approval ∷ []) paid ≡ paid)
    × (decide_order "ab12cd34" rejection paid ≡ (ok (some (serialize_order paid_order)), paid))
approval_is_final_example =
    approval_is_final "ab12cd34" approval rejection (approval ∷ []) db (serialize_order paid_order)
      refl approved
