-- ===== src/Database.antt =====
-- The tables of the bot's database (sql_helper/) that the modelled services read and write, as one
-- value: a session of the unit of work works on it.
-- Column widths, the numbers and time stamps that the database fills in by itself (`id` but for
-- point_transactions, `created_at`, `updated_at`), and the names beside a key are left out.
mod Rows
mod Commerce
mod Community
pub use Rows.*
pub use Commerce.*
pub use Community.*
use sakura_embyboss.Prelude.{ℕ, ℤ, String, Bool, Option, List, [], ◌==◌, eq_int, eq_string, first}

pub record Db : Type 0 where
  pub users : List Emby
  pub accounts : List Account
  pub identities : List AccountIdentity
  pub wallets : List AccountWallet
  pub ledger : List AccountLedgerEntry
  pub transactions : List PointTransaction
  -- the number that the next row of point_transactions gets
  pub next_transaction : ℕ
  pub idempotency : List IdempotencyRecord
  pub audits : List AuditLog
  pub events : List SystemEvent
  pub codes : List Code
  pub tasks : List OperationTask
  pub job_runs : List JobRun
  pub partition_codes : List PartitionCode
  pub grants : List PartitionGrant
  pub settings : List DynamicSetting
  pub preferences : List NotificationPreference
  pub notifications : List UserNotification
  pub products : List RechargeProduct
  -- the number that the next row of recharge_products gets
  pub next_product : ℕ
  pub orders : List RechargeOrder
  -- the rows of idempotency_records of the scope "billing.order.create", whose value is the data
  -- of an order: key and value
  pub order_results : List (String × Fields)
  pub billing : List BillingEntry
  pub tickets : List SupportTicket
  pub messages : List TicketMessage
  -- the number that the next row of ticket_messages gets
  pub next_message : ℕ
  pub requests : List MediaRequest

abbrev pub has_tg : ℤ → Emby → Bool
has_tg tg u = u.tg == tg

abbrev pub has_legacy_tg : ℤ → Account → Bool
has_legacy_tg tg a = a.legacy_tg == tg

-- `UserRepository.get_for_update`: the row lock is the atomicity of the transaction.
abbrev pub get_user : ℤ → Db → Option Emby
get_user tg db = first (has_tg tg) db.users

-- `AccountRepository.by_legacy_tg`
abbrev pub by_legacy_tg : ℤ → Db → Option Account
by_legacy_tg tg db = first (has_legacy_tg tg) db.accounts

abbrev pub has_code : String → Code → Bool
has_code value c = c.code == value

-- `CodeRepository.get_for_update`
abbrev pub get_code : String → Db → Option Code
get_code value db = first (has_code value) db.codes
