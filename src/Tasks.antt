-- ===== src/Tasks.antt =====
-- application/task_service.py and the task queries of repositories/operations.py: the queue of
-- background tasks. Every call is one transaction. `now` is `utcnow()`, and `id` is the fresh
-- `uuid4()`. A caller may read rows of an older snapshot than the rows that its writes meet: `view`
-- is what its plain SELECT sees of the table.
mod Tests
pub mod Steps
pub mod Moves
pub mod Claims
pub mod Wellformed
pub mod Enqueue
pub mod Attempts
pub mod Fence
pub mod Calls
use sakura_embyboss.Prelude.{
  ℕ, zero, suc, ◌+◌, String, Bool, true, false, ◌&&◌, ◌||◌, not, Option, none, some, List, [], ◌∷◌,
  map, ◌==◌, eq_string, if◌then◌else◌, ltb, leb, nat_eq, first, replace, is_some,
}
use sakura_embyboss.Exec.{
  Exec, Result, ok, err, pure, raise, gets, modify, transaction, integrity_error, ◌>>=◌, ◌>>◌,
}
use sakura_embyboss.Database.{Db, DateTime, Fields, num, text, flag, Actor, OperationTask, pending}
use sakura_embyboss.Operations.{audit, event}
use sakura_embyboss.TaskTypes.{TaskDefinition, find_definition, TaskView, serialize_task}
use sakura_embyboss.TaskRow.{
  status_name, is_terminal, is_retryable, canceled_by_user, reset, is_expired, recovered, is_due,
  is_claimable, claimed, is_held_by, beaten, completed, failed_by, seconds, str_take,
}

-- `ServiceResult` with a task as its data.
pub record TaskResult : Type 0 where
  pub status : String
  pub task : Option TaskView

abbrev pub answer : String → OperationTask → TaskResult
answer status t = record { status = status; task = some (serialize_task t false) }

abbrev pub refusal : String → TaskResult
refusal status = record { status = status; task = none }

abbrev pub has_id : String → OperationTask → Bool
has_id id t = t.id == id

abbrev pub key_of_task : String → Option String → Bool
key_of_task key none = false
key_of_task key (some k) = k == key

abbrev pub has_key : String → OperationTask → Bool
has_key key t = key_of_task key t.idempotency_key

-- `get_task`
abbrev pub get_task : String → Db → Option OperationTask
get_task id db = first (has_id id) db.tasks

-- `get_task_by_idempotency_key`
abbrev pub find_by_key : Option String → List OperationTask → Option OperationTask
find_by_key none rows = none
find_by_key (some key) rows = if key == "" then none else first (has_key key) rows

-- The changed row at the flush.
abbrev pub save_task : OperationTask → Exec Db (Unit {0})
save_task t = modify (λ (s : Db). record s { tasks = replace (has_id t.id) t s.tasks })

abbrev pub new_task :
    String → String → Fields → Actor → Option String → ℕ → DateTime → OperationTask
new_task id task_type payload actor key max_retries now = record {
  id = id;
  task_type = task_type;
  status = pending;
  progress = 0;
  owner_kind = actor.kind;
  owner_id = actor.identifier;
  idempotency_key = key;
  input = payload;
  outcome = none;
  error_message = none;
  retry_count = 0;
  max_retries = max_retries;
  next_run_at = now;
  locked_by = none;
  lease_expires_at = none;
  last_heartbeat_at = none;
  cancel_requested = false;
  created_at = now;
  started_at = none;
  finished_at = none;
  updated_at = now;
}

-- uq_operation_tasks_idempotency_key; null keys never clash.
abbrev pub key_taken : Option String → List OperationTask → Bool
key_taken none rows = false
key_taken (some key) rows = is_some (first (has_key key) rows)

-- `add_task` at the flush, which checks the primary key and the unique key.
unfoldable pub add_task : OperationTask → Exec Db (Unit {0})
add_task t db =
    if is_some (first (has_id t.id) db.tasks) || key_taken t.idempotency_key db.tasks
    then raise integrity_error db
    else modify (λ (s : Db). record s { tasks = t ∷ s.tasks }) db

-- The rest of `enqueue` after the insert.
unfoldable pub note_new : OperationTask → Actor → Exec Db TaskResult
unfolding audit event
note_new t actor = do
  audit actor "task.enqueue" "operation_task" (some t.id) "success"
      (some (("task_type", text t.task_type) ∷ []))
  event "task.created" "operation_task" (some t.id)
      (("task_id", text t.id) ∷ ("task_type", text t.task_type) ∷ ("status", text "pending") ∷ [])
  pure (answer "ok" t)

abbrev pub enqueue_new : OperationTask → Actor → Exec Db TaskResult
enqueue_new t actor = add_task t >> note_new t actor

abbrev pub enqueue_found : OperationTask → Actor → Option OperationTask → Exec Db TaskResult
enqueue_found t actor none = enqueue_new t actor
enqueue_found t actor (some existing) = pure (answer "ok" existing)

-- The first unit of work of `enqueue`; the lookup sees `view`.
unfoldable pub enqueue_once :
    (List OperationTask → List OperationTask) → OperationTask → Actor → Exec Db TaskResult
enqueue_once view t actor = transaction do
  found ← gets (λ db. find_by_key t.idempotency_key (view db.tasks))
  enqueue_found t actor found

abbrev pub found_or_raise : Option OperationTask → Exec Db TaskResult
found_or_raise none = raise integrity_error
found_or_raise (some existing) = pure (answer "ok" existing)

-- `except IntegrityError`: the second unit of work, a new snapshot; without a key the error goes on.
abbrev pub enqueue_again : Option String → Exec Db TaskResult
enqueue_again key =
    transaction do found ← gets (λ db. find_by_key key db.tasks); found_or_raise found

abbrev pub rescue : Option String → Result TaskResult × Db → Result TaskResult × Db
rescue key (ok r, db) = (ok r, db)
rescue key (err integrity_error, db) = enqueue_again key db
rescue key (err e, db) = (err e, db)

abbrev pub enqueue_as :
    Option TaskDefinition
    → (List OperationTask → List OperationTask)
    → String
    → String
    → Fields
    → Actor
    → Option String
    → DateTime
    → Exec Db TaskResult
enqueue_as none view id task_type payload actor key now db = (ok (refusal "unsupported_task"), db)
enqueue_as (some d) view id task_type payload actor key now db =
    rescue key
      (enqueue_once view (new_task id task_type payload actor key d.max_retries now) actor db)

unfoldable pub enqueue :
    (List OperationTask → List OperationTask)
    → String
    → String
    → Fields
    → Actor
    → Option String
    → DateTime
    → Exec Db TaskResult
enqueue view id task_type payload actor key now =
    enqueue_as (find_definition task_type) view id task_type payload actor key now

abbrev pub view_of : Option OperationTask → Option TaskView
view_of none = none
view_of (some t) = some (serialize_task t false)

-- `get`
abbrev pub get : String → Exec Db (Option TaskView)
get id = transaction (gets (λ db. view_of (get_task id db)))

-- An event about a task.
abbrev pub task_event : OperationTask → Fields → Exec Db (Unit {0})
task_event t fields =
    event "task.updated" "operation_task" (some t.id) (("task_id", text t.id) ∷ fields)

-- `cancel` of a task that is not over.
unfoldable pub cancel_open : DateTime → Actor → OperationTask → Exec Db TaskResult
unfolding audit event
cancel_open now actor t =
    let t' = canceled_by_user now t in
    do
      save_task t'
      audit actor "task.cancel" "operation_task" (some t'.id) "success"
          (some (("status", text (status_name t'.status)) ∷ []))
      task_event t'
          (("status", text (status_name t'.status)) ∷ ("cancel_requested", flag true) ∷ [])
      pure (answer "ok" t')

abbrev pub cancel_found : DateTime → Actor → Option OperationTask → Exec Db TaskResult
cancel_found now actor none = pure (refusal "not_found")
cancel_found now actor (some t) =
    if is_terminal t.status then pure (answer "terminal" t) else cancel_open now actor t

unfoldable pub cancel : String → Actor → DateTime → Exec Db TaskResult
unfolding cancel_open
cancel id actor now = transaction do found ← gets (get_task id); cancel_found now actor found

unfoldable pub retry_over : DateTime → Actor → OperationTask → Exec Db TaskResult
unfolding audit event
retry_over now actor t = do
  save_task (reset now t)
  audit actor "task.retry" "operation_task" (some t.id) "success" none
  task_event t (("status", text "pending") ∷ [])
  pure (answer "ok" (reset now t))

abbrev pub retry_found : DateTime → Actor → Option OperationTask → Exec Db TaskResult
retry_found now actor none = pure (refusal "not_found")
retry_found now actor (some t) =
    if is_retryable t.status then retry_over now actor t else pure (answer "not_retryable" t)

unfoldable pub retry : String → Actor → DateTime → Exec Db TaskResult
unfolding retry_over
retry id actor now = transaction do found ← gets (get_task id); retry_found now actor found

-- The writes of a worker, which take effect while it holds the task.
abbrev pub beat : DateTime → ℕ → OperationTask → Exec Db Bool
beat now lease_seconds t = do save_task (beaten now lease_seconds t); pure (not t.cancel_requested)

abbrev pub finish : DateTime → Fields → OperationTask → Exec Db Bool
finish now value t = do
  save_task (completed now value t)
  task_event (completed now value t) (
      ("task_type", text t.task_type)
      ∷ ("status", text (status_name (completed now value t).status))
      ∷ [])
  pure true

abbrev pub give_up : DateTime → String → OperationTask → Exec Db Bool
give_up now error t =
    let t' = failed_by now error t in
    do
      save_task t'
      task_event t' (
          ("task_type", text t'.task_type)
          ∷ ("status", text (status_name t'.status))
          ∷ ("retry_count", num (sakura_embyboss.Prelude.pos t'.retry_count))
          ∷ [])
      pure true

-- The guard of `heartbeat`, `complete` and `fail`.
abbrev pub while_held :
    String → (OperationTask → Exec Db Bool) → Option OperationTask → Exec Db Bool
while_held worker_id body none = pure false
while_held worker_id body (some t) = if is_held_by worker_id t then body t else pure false

unfoldable pub heartbeat : String → String → ℕ → DateTime → Exec Db Bool
heartbeat id worker_id lease_seconds now =
    transaction do found ← gets (get_task id); while_held worker_id (beat now lease_seconds) found

unfoldable pub complete : String → String → Fields → DateTime → Exec Db Bool
unfolding event
complete id worker_id value now =
    transaction do found ← gets (get_task id); while_held worker_id (finish now value) found

unfoldable pub fail : String → String → String → DateTime → Exec Db Bool
unfolding event failed_by
fail id worker_id error now =
    transaction do found ← gets (get_task id); while_held worker_id (give_up now error) found

abbrev pub or_none : String → Option String
or_none s = if s == "" then none else some s

abbrev pub error_text : Option String → Option String
error_text none = none
error_text (some e) = or_none (str_take 4000 e)

-- `record_job_run`
unfoldable pub record_job_run :
    String
    → String
    → String
    → Option DateTime
    → Fields
    → Option String
    → DateTime
    → Exec Db (Unit {0})
record_job_run job_name trigger_kind status started_at summary error_message now = transaction (
    modify λ (s : Db). record s {
      job_runs =
          record {
            job_name = job_name;
            trigger_kind = trigger_kind;
            status = status;
            summary = summary;
            error_message = error_text error_message;
            started_at = elim started_at [ none ↦ now | some t ↦ t ];
            finished_at = now;
          }
          ∷ s.job_runs;
    })
