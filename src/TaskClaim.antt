-- ===== src/TaskClaim.antt =====
-- `claim` of application/task_service.py and claim_next_task of repositories/operations.py: the tasks
-- whose lease has run out, then the first candidate that is still free. `view` is what the plain
-- SELECT of the candidates sees of the table.
use sakura_embyboss.Prelude.{
  ℕ, zero, suc, ◌+◌, String, Bool, true, ◌&&◌, ◌||◌, Option, none, some, List, [], ◌∷◌, map,
  eq_string, if◌then◌else◌, ltb, leb, nat_eq, first, replace,
}
use sakura_embyboss.Exec.{Exec, pure, gets, modify, transaction, ◌>>=◌, ◌>>◌}
use sakura_embyboss.Database.{Db, DateTime, text, OperationTask}
use sakura_embyboss.Operations.{event}
use sakura_embyboss.TaskTypes.{TaskView, serialize_task}
use sakura_embyboss.TaskRow.{
  status_name, is_expired, recovered, is_due, is_claimable, claimed, seconds,
}
use sakura_embyboss.Tasks.{has_id, task_event}

-- The loop of `claim` over the tasks whose lease has run out.
abbrev pub recover : DateTime → OperationTask → OperationTask
recover now t = if is_expired now t then recovered now t else t

unfoldable pub recover_events : DateTime → List OperationTask → Exec Db (Unit {0})
unfolding event
recover_events now [] = pure tt
recover_events now (t ∷ ts) =
    let rest = recover_events now ts in
    if is_expired now t
    then (do
      task_event (recovered now t) (("status", text (status_name (recovered now t).status)) ∷ [])
      rest)
    else rest

unfoldable pub recover_leases : DateTime → Exec Db (Unit {0})
unfolding recover_events
recover_leases now = do
  rows ← gets (λ db. db.tasks)
  modify (λ (s : Db). record s { tasks = map (recover now) s.tasks })
  recover_events now rows

-- `ORDER BY next_run_at, created_at`
abbrev pub before : OperationTask → OperationTask → Bool
before t u =
    ltb t.next_run_at u.next_run_at
    || (nat_eq t.next_run_at u.next_run_at && leb t.created_at u.created_at)

unfoldable pub insert_due : OperationTask → List OperationTask → List OperationTask
insert_due t [] = t ∷ []
insert_due t (u ∷ us) = if before t u then t ∷ u ∷ us else u ∷ insert_due t us

-- The rows of the SELECT in `claim_next_task`, in order.
unfoldable pub due_rows : DateTime → List OperationTask → List OperationTask
unfolding insert_due
due_rows now [] = []
due_rows now (t ∷ ts) =
    let rest = due_rows now ts in if is_due now t then insert_due t rest else rest

unfoldable pub limit : ℕ → List OperationTask → List OperationTask
limit zero rows = []
limit (suc n) [] = []
limit (suc n) (t ∷ ts) = t ∷ limit n ts

-- One UPDATE of `claim_next_task`: the row, if it still passes the filter.
abbrev pub claimable_row : DateTime → String → OperationTask → Bool
claimable_row now id t = has_id id t && is_claimable now t

-- The UPDATE, and the row that `get_task` then reads.
abbrev pub take_row :
    String → DateTime → DateTime → String → OperationTask → Exec Db (Option OperationTask)
take_row worker_id now lease_expires_at id t = do
  modify (λ (s : Db). record s {
    tasks = replace (claimable_row now id) (claimed worker_id now lease_expires_at t) s.tasks;
  })
  pure (some (claimed worker_id now lease_expires_at t))

abbrev pub take_or :
    String
    → DateTime
    → DateTime
    → String
    → Exec Db (Option OperationTask)
    → Option OperationTask
    → Exec Db (Option OperationTask)
take_or worker_id now lease_expires_at id rest none = rest
take_or worker_id now lease_expires_at id rest (some t) =
    take_row worker_id now lease_expires_at id t

-- The loop over the candidates: the first UPDATE that meets a row ends it.
unfoldable pub claim_first :
    String → DateTime → DateTime → List OperationTask → Exec Db (Option OperationTask)
claim_first worker_id now lease_expires_at [] db = pure none db
claim_first worker_id now lease_expires_at (c ∷ cs) db =
    take_or worker_id now lease_expires_at c.id (claim_first worker_id now lease_expires_at cs)
      (first (claimable_row now c.id) db.tasks) db

unfoldable pub claim_next_task :
    (List OperationTask → List OperationTask)
    → String
    → DateTime
    → DateTime
    → Exec Db (Option OperationTask)
unfolding claim_first due_rows limit
claim_next_task view worker_id now lease_expires_at db =
    claim_first worker_id now lease_expires_at (limit 10 (due_rows now (view db.tasks))) db

abbrev pub report_claim : Option OperationTask → Exec Db (Option TaskView)
report_claim none = pure none
report_claim (some t) = do
  task_event t (("status", text "running") ∷ [])
  pure (some (serialize_task t true))

unfoldable pub claim :
    (List OperationTask → List OperationTask) → String → ℕ → DateTime → Exec Db (Option TaskView)
unfolding recover_leases claim_next_task event
claim view worker_id lease_seconds now = transaction do
  recover_leases now
  row ← claim_next_task view worker_id now (now + seconds lease_seconds)
  report_claim row
