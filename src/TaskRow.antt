-- ===== src/TaskRow.antt =====
-- application/task_service.py and repositories/operations.py: the writes to one row of
-- operation_tasks, one function for each block of assignments.
use Prim.Native.String.{◌∷◌ as char_cons}
use sakura_embyboss.Prelude.{
  ℕ, zero, suc, ◌+◌, ◌*◌, ◌-◌, ◌^◌, min, String, Bool, true, false, ◌&&◌, not, Option, none, some,
  ◌==◌, eq_string, if◌then◌else◌, ltb, leb,
}
use sakura_embyboss.Database.{
  DateTime, Fields, OperationTask, TaskStatus, pending, running, retrying, succeeded, failed,
  canceled,
}

abbrev pub is_running : TaskStatus → Bool
is_running running = true
is_running _ = false

-- `status in {"succeeded", "failed", "canceled"}`
abbrev pub is_terminal : TaskStatus → Bool
is_terminal succeeded = true
is_terminal failed = true
is_terminal canceled = true
is_terminal _ = false

-- `status in {"pending", "retrying"}`
abbrev pub is_waiting : TaskStatus → Bool
is_waiting pending = true
is_waiting retrying = true
is_waiting _ = false

-- `status in {"failed", "canceled"}`
abbrev pub is_retryable : TaskStatus → Bool
is_retryable failed = true
is_retryable canceled = true
is_retryable _ = false

abbrev pub status_name : TaskStatus → String
status_name pending = "pending"
status_name running = "running"
status_name retrying = "retrying"
status_name succeeded = "succeeded"
status_name failed = "failed"
status_name canceled = "canceled"

-- `timedelta(seconds=n)`
abbrev pub seconds : ℕ → ℕ
seconds n = n * 1000000

-- `min(300, 5 * (2 ** max(0, retry_count - 1)))`; ℕ's `-` stops at 0, as `max(0, …)` does.
unfoldable pub backoff : ℕ → ℕ
backoff retry_count = min 300 (5 * 2 ^ (retry_count - 1))

-- `cancel`
abbrev pub canceled_by_user : DateTime → OperationTask → OperationTask
canceled_by_user now t =
    if is_waiting t.status
    then record t {
      cancel_requested = true;
      status = canceled;
      finished_at = some now;
      progress = 100;
      updated_at = now;
    }
    else record t { cancel_requested = true; updated_at = now }

-- `retry`
abbrev pub reset : DateTime → OperationTask → OperationTask
reset now t = record t {
  status = pending;
  progress = 0;
  retry_count = 0;
  error_message = none;
  outcome = none;
  next_run_at = now;
  locked_by = none;
  lease_expires_at = none;
  last_heartbeat_at = none;
  cancel_requested = false;
  started_at = none;
  finished_at = none;
  updated_at = now;
}

-- `lease_expires_at is not None and lease_expires_at < now`
abbrev pub lease_over : DateTime → Option DateTime → Bool
lease_over now none = false
lease_over now (some t) = ltb t now

-- The filter of `recover_expired_task_leases`.
abbrev pub is_expired : DateTime → OperationTask → Bool
is_expired now t = is_running t.status && lease_over now t.lease_expires_at

-- The loop body of `claim` over a task whose lease has run out.
abbrev pub recovered : DateTime → OperationTask → OperationTask
recovered now t =
    let u = record t {
      locked_by = none;
      lease_expires_at = none;
      last_heartbeat_at = none;
      retry_count = t.retry_count + 1;
      updated_at = now;
    } in
    if t.cancel_requested
    then record u { status = canceled; finished_at = some now }
    else if leb (t.retry_count + 1) t.max_retries
    then record u {
      status = retrying;
      next_run_at = now + seconds (backoff (t.retry_count + 1));
      error_message = some "Worker lease expired; task scheduled for retry";
    }
    else record u {
      status = failed;
      finished_at = some now;
      error_message = some "Worker lease expired and retry limit was reached";
    }

abbrev lease_free : DateTime → Option DateTime → Bool
lease_free now none = true
lease_free now (some t) = ltb t now

-- The filter of the UPDATE in `claim_next_task`.
abbrev pub is_claimable : DateTime → OperationTask → Bool
is_claimable now t =
    is_waiting t.status && not t.cancel_requested && lease_free now t.lease_expires_at

-- The filter of its SELECT.
abbrev pub is_due : DateTime → OperationTask → Bool
is_due now t = is_claimable now t && leb t.next_run_at now

-- The values of the UPDATE.
abbrev pub claimed : String → DateTime → DateTime → OperationTask → OperationTask
claimed worker_id now lease_expires_at t = record t {
  status = running;
  locked_by = some worker_id;
  lease_expires_at = some lease_expires_at;
  last_heartbeat_at = some now;
  started_at = some now;
  updated_at = now;
}

abbrev pub holds : Option String → String → Bool
holds none worker_id = false
holds (some w) worker_id = w == worker_id

-- `not (task.status != "running" or task.locked_by != worker_id)`
abbrev pub is_held_by : String → OperationTask → Bool
is_held_by worker_id t = is_running t.status && holds t.locked_by worker_id

-- `heartbeat`
abbrev pub beaten : DateTime → ℕ → OperationTask → OperationTask
beaten now lease_seconds t = record t {
  last_heartbeat_at = some now;
  lease_expires_at = some (now + seconds lease_seconds);
  updated_at = now;
}

-- `complete`
abbrev pub completed : DateTime → Fields → OperationTask → OperationTask
completed now value t = record t {
  status = if t.cancel_requested then canceled else succeeded;
  progress = 100;
  outcome = some value;
  error_message = none;
  locked_by = none;
  lease_expires_at = none;
  finished_at = some now;
  updated_at = now;
}

-- `s[:n]`
unfoldable pub str_take : ℕ → String → String
str_take zero s = ""
str_take (suc n) String.[] = ""
str_take (suc n) (String.◌∷◌ c s) = char_cons c (str_take n s)

-- `fail`
unfoldable pub failed_by : DateTime → String → OperationTask → OperationTask
failed_by now error t =
    let u = record t {
      retry_count = t.retry_count + 1;
      error_message = some (str_take 4000 error);
      locked_by = none;
      lease_expires_at = none;
      last_heartbeat_at = none;
      updated_at = now;
    } in
    if t.cancel_requested
    then record u { status = canceled; finished_at = some now; progress = 100 }
    else if leb (t.retry_count + 1) t.max_retries
    then record u { status = retrying; next_run_at = now + seconds (backoff (t.retry_count + 1)) }
    else record u { status = failed; finished_at = some now }
