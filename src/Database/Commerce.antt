-- ===== src/Database/Commerce.antt =====
-- The rows of sql_helper/sql_commerce.py: recharge products and orders, the billing ledger, support
-- tickets and their messages, and media requests.
use sakura_embyboss.Prelude.{ℕ, ℤ, String, Bool, Option}
use sakura_embyboss.Database.Rows.{DateTime, Fields}

-- recharge_products
pub record RechargeProduct : Type 0 where
  pub id : ℤ
  pub name : String
  pub description : Option String
  pub amount_cents : ℤ
  pub coins : ℤ
  pub bonus_coins : ℤ
  pub enabled : Bool
  pub sort_order : ℤ
  pub revision : ℤ
  pub created_at : DateTime
  pub updated_at : DateTime

-- recharge_orders
pub record RechargeOrder : Type 0 where
  pub id : String
  pub order_no : String
  pub tg : ℤ
  pub product_id : Option ℤ
  pub product_name : String
  pub amount_cents : ℤ
  pub coins : ℤ
  pub bonus_coins : ℤ
  pub payment_method : String
  pub payment_reference : Option String
  pub status : String
  pub user_note : Option String
  pub admin_note : Option String
  pub created_at : DateTime
  pub paid_at : Option DateTime
  pub credited_at : Option DateTime
  pub canceled_at : Option DateTime
  pub updated_at : DateTime

-- billing_entries, without the number and the time that the database fills in
pub record BillingEntry : Type 0 where
  pub order_id : Option String
  pub tg : ℤ
  pub entry_type : String
  pub amount_cents : Option ℤ
  pub coins : Option ℤ
  pub description : String
  pub actor_kind : String
  pub actor_id : String
  pub metadata : Option Fields

-- support_tickets
pub record SupportTicket : Type 0 where
  pub id : String
  pub ticket_no : String
  pub tg : ℤ
  pub subject : String
  pub category : String
  pub priority : String
  pub status : String
  pub assignee_tg : Option ℤ
  pub last_reply_kind : String
  pub last_reply_at : DateTime
  pub resolved_at : Option DateTime
  pub closed_at : Option DateTime
  pub created_at : DateTime
  pub updated_at : DateTime

-- ticket_messages
pub record TicketMessage : Type 0 where
  pub id : ℕ
  pub ticket_id : String
  pub sender_kind : String
  pub sender_tg : Option ℤ
  pub body : String
  pub internal : Bool
  pub created_at : DateTime

-- media_requests
pub record MediaRequest : Type 0 where
  pub id : String
  pub request_no : String
  pub tg : ℤ
  pub title : String
  pub year : Option ℤ
  pub media_type : String
  pub description : Option String
  pub status : String
  pub priority : String
  pub source : String
  pub external_ref : Option String
  pub download_id : Option String
  pub cost_coins : ℤ
  pub progress : ℤ
  pub admin_note : Option String
  pub reviewed_by : Option ℤ
  pub reviewed_at : Option DateTime
  pub completed_at : Option DateTime
  pub canceled_at : Option DateTime
  pub created_at : DateTime
  pub updated_at : DateTime
