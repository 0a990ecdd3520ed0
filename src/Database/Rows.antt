-- ===== src/Database/Rows.antt =====
-- The rows of the tables, the caller of a service (domain/actor.py) and the result that a service
-- returns (application/results.py).
use sakura_embyboss.Prelude.{ℕ, ℤ, String, Bool, true, Option, List, map, ◌==◌, eq_string}

-- A date and time without a zone: microseconds since datetime.min.
abbrev pub DateTime : Type 0
DateTime = ℕ

-- A value in the data of a result, of an audit row or of an event. `iso t` is the text
-- `t.isoformat()`, and `str_time t` the text `str(t)`.
pub data Value : Type 0 where
  null : Value
  flag : Bool → Value
  num : ℤ → Value
  text : String → Value
  time : DateTime → Value
  iso : DateTime → Value
  str_time : DateTime → Value
  texts : List String → Value

abbrev pub Fields : Type 0
Fields = List (String × Value)

pub record Actor : Type 0 where
  pub kind : String
  pub identifier : String
  pub display_name : Option String

pub record ServiceResult : Type 0 where
  pub status : String
  pub fields : Fields
  pub replayed : Bool

-- `ServiceResult(status, data)`
abbrev pub result : String → Fields → ServiceResult
result status fields = record { status = status; fields = fields; replayed = Bool.false }

-- `ServiceResult.ok`
abbrev pub is_ok : ServiceResult → Bool
is_ok r = r.status == "ok"

abbrev pub isoformat : String × Value → String × Value
isoformat (k, time t) = (k, iso t)
isoformat (k, v) = (k, v)

-- `to_dict`: the saved form writes every date of the data as text.
abbrev pub to_dict : ServiceResult → ServiceResult
to_dict r = record r { fields = map isoformat r.fields }

-- `from_dict`
abbrev pub from_dict : ServiceResult → ServiceResult
from_dict r = record r { replayed = true }

-- emby: the user of the bot. `iv` is the balance of coins, `us` the days of registration.
pub record Emby : Type 0 where
  pub tg : ℤ
  pub embyid : Option String
  pub name : Option String
  pub pwd : Option String
  pub pwd2 : Option String
  pub lv : Option String
  pub cr : Option DateTime
  pub ex : Option DateTime
  pub us : Option ℤ
  pub iv : Option ℤ
  pub ch : Option DateTime

-- accounts
pub record Account : Type 0 where
  pub id : String
  pub legacy_tg : ℤ
  pub display_name : Option String
  pub status : String

-- account_identities; the name of a local login is left out
pub record AccountIdentity : Type 0 where
  pub id : String
  pub account_id : String
  pub provider : String
  pub subject : String

-- account_wallets
pub record AccountWallet : Type 0 where
  pub account_id : String
  pub balance_type : String
  pub balance : ℤ
  pub revision : ℕ

-- account_ledger_entries
pub record AccountLedgerEntry : Type 0 where
  pub source_transaction_id : Option ℕ
  pub account_id : String
  pub legacy_tg : Option ℤ
  pub balance_type : String
  pub amount : ℤ
  pub balance_after : ℤ
  pub reason : String
  pub scope : String
  pub idempotency_key : Option String
  pub actor_kind : String
  pub actor_id : String
  pub metadata : Option Fields

-- point_transactions
pub record PointTransaction : Type 0 where
  pub id : ℕ
  pub account_id : Option String
  pub tg : ℤ
  pub balance_type : String
  pub amount : ℤ
  pub balance_after : ℤ
  pub reason : String
  pub actor_kind : String
  pub actor_id : String
  pub idempotency_key : Option String
  pub metadata : Option Fields

-- idempotency_records; `saved` is what `result_json` reads back as
pub record IdempotencyRecord : Type 0 where
  pub scope : String
  pub idempotency_key : String
  pub saved : Option ServiceResult

-- audit_logs
pub record AuditLog : Type 0 where
  pub actor : Actor
  pub action : String
  pub resource_type : String
  pub resource_id : Option String
  pub outcome : String
  pub detail : Option Fields

-- system_events
pub record SystemEvent : Type 0 where
  pub event_type : String
  pub aggregate_type : String
  pub aggregate_id : Option String
  pub payload : Fields

-- Rcode: codes of registration, renewal and whitelist
pub record Code : Type 0 where
  pub code : String
  pub tg : Option ℤ
  pub us : Option ℤ
  pub used : Option ℤ
  pub usedtime : Option DateTime
  pub issuer_account_id : Option String
  pub used_by_account_id : Option String
  pub status : Option String
  pub expires_at : Option DateTime

-- The states of a task, as the column `status` spells them.
pub data TaskStatus : Type 0 where
  pending running retrying succeeded failed canceled : TaskStatus

-- operation_tasks
pub record OperationTask : Type 0 where
  pub id : String
  pub task_type : String
  pub status : TaskStatus
  pub progress : ℕ
  pub owner_kind : String
  pub owner_id : String
  pub idempotency_key : Option String
  pub input : Fields
  pub outcome : Option Fields
  pub error_message : Option String
  pub retry_count : ℕ
  pub max_retries : ℕ
  pub next_run_at : DateTime
  pub locked_by : Option String
  pub lease_expires_at : Option DateTime
  pub last_heartbeat_at : Option DateTime
  pub cancel_requested : Bool
  pub created_at : DateTime
  pub started_at : Option DateTime
  pub finished_at : Option DateTime
  pub updated_at : DateTime

-- job_runs
pub record JobRun : Type 0 where
  pub job_name : String
  pub trigger_kind : String
  pub status : String
  pub summary : Fields
  pub error_message : Option String
  pub started_at : DateTime
  pub finished_at : DateTime

-- partition_codes
pub record PartitionCode : Type 0 where
  pub code : String
  pub partition : String
  pub duration_days : ℤ
  pub status : String
  pub reserved_by : Option ℤ
  pub reserved_at : Option DateTime
  pub reservation_token : Option String

-- partition_grants
pub record PartitionGrant : Type 0 where
  pub tg : ℤ
  pub embyid : Option String
  pub embyname : Option String
  pub partition : String
  pub expires_at : DateTime
  pub status : String
  pub code : Option String
  pub created_at : DateTime
  pub updated_at : DateTime
