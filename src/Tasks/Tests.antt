-- ===== src/Tasks/Tests.antt =====
-- Runs of the task service on a table of one task, and the theorems at these inputs.
use sakura_embyboss.Prelude.{
  ◌+◌, ◌≤◌, true, false, ◌≡◌, refl, inl, none, some, List, [], ◌∷◌, All, first,
}
use sakura_embyboss.Exec.{ok}
use sakura_embyboss.Database.{Db, OperationTask}
use sakura_embyboss.TaskTypes.{TaskDefinition, find_definition}
use sakura_embyboss.TaskRow.{seconds, failed_by, claimed}
use sakura_embyboss.Tasks.{new_task, get_task, has_key, answer, enqueue, heartbeat, complete, fail}
use sakura_embyboss.Tasks.Wellformed.{IsWf, new_task-IsWf}
use sakura_embyboss.Tasks.Attempts.{capacity}
use sakura_embyboss.Tasks.Calls.{
  WorkCall, cancels_task, claims_task, beats, completes_task, fails_task, work_all, handed_out,
  handed_out_bound, Call, works, enqueues, retries, run_all, run_all-IsWf,
}
use sakura_embyboss.Tasks.Fence.{Lost, fenced, next_attempt_delay}
use sakura_embyboss.Tasks.Enqueue.{IsStale, enqueue_known_key}
use sakura_embyboss.Points.Tests.{admin, db as empty}

abbrev backup : OperationTask
backup = new_task "t1" "maintenance.backup_database" [] admin (some "nightly") 1 5

abbrev db : Db
db = record empty { tasks = backup ∷ [] }

db-IsWf : All IsWf db.tasks
db-IsWf = (new_task-IsWf "t1" "maintenance.backup_database" [] admin (some "nightly") 1 5, tt)

abbrev whole : List OperationTask → List OperationTask
whole rows = rows

-- Two workers; the first one fails, and the second one loses its lease.
abbrev script : List WorkCall
script =
    claims_task whole "w1" 60 10
    ∷ fails_task "t1" "w1" "disk full" 20
    ∷ claims_task whole "w2" 60 (20 + seconds 10)
    ∷ beats "t1" "w2" 60 (20 + seconds 20)
    ∷ claims_task whole "w1" 60 (20 + seconds 400)
    ∷ cancels_task "t1" admin (20 + seconds 401)
    ∷ completes_task "t1" "w2" [] (20 + seconds 402)
    ∷ []

handed_out_bound_example :
    handed_out script db + capacity (work_all script db).tasks ≤ capacity db.tasks
handed_out_bound_example = handed_out_bound script db db-IsWf

abbrev mixed : List Call
mixed =
    enqueues whole "t2" "sync.favorites" [] admin none 6
    ∷ works (claims_task whole "w1" 60 10)
    ∷ works (cancels_task "t2" admin 11)
    ∷ works (fails_task "t1" "w1" "no" 12)
    ∷ retries "t2" admin 13
    ∷ []

run_all-IsWf_example : All IsWf (run_all mixed db).tasks
run_all-IsWf_example = run_all-IsWf mixed db db-IsWf

-- The task is still pending.
not_held : Lost "w1" (get_task "t1" db)
unfolding first
not_held = inl (λ h. cc)

fenced_example :
    (heartbeat "t1" "w1" 60 10 db ≡ (ok false, db))
    × (complete "t1" "w1" [] 10 db ≡ (ok false, db))
    × (fail "t1" "w1" "no" 10 db ≡ (ok false, db))
fenced_example = fenced "t1" "w1" 10 db 60 [] "no" not_held

-- A failure of the first attempt.
abbrev running_row : OperationTask
running_row = claimed "w1" 10 (10 + seconds 60) backup

next_attempt_delay_example :
    (20 + seconds 5 ≤ (failed_by 20 "disk full" running_row).next_run_at)
    × ((failed_by 20 "disk full" running_row).next_run_at ≤ 20 + seconds 300)
unfolding failed_by
next_attempt_delay_example =
    next_attempt_delay 20 "disk full" running_row (failed_by 20 "disk full" running_row) (inl refl)
      refl

abbrev backup_definition : TaskDefinition
backup_definition = record {
  task_type = "maintenance.backup_database";
  label = "备份数据库";
  description = "创建数据库备份并按保留策略清理旧文件。";
  risk = "warning";
  timeout_seconds = 1800;
  max_retries = 1;
  admin_exposed = true;
}

defined : find_definition "maintenance.backup_database" ≡ some backup_definition
unfolding find_definition first
defined = refl

-- The snapshot from before the other call's insert.
abbrev nothing : List OperationTask → List OperationTask
nothing rows = []

has_nightly : first (has_key "nightly") db.tasks ≡ some backup
unfolding first
has_nightly = refl

stale : IsStale nothing "nightly" db
unfolding first
stale = inl refl

enqueue_known_key_example :
    enqueue nothing "t9" "maintenance.backup_database" [] admin (some "nightly") 7 db
    ≡ (ok (answer "ok" backup), db)
enqueue_known_key_example =
    enqueue_known_key nothing admin db "t9" "maintenance.backup_database" "nightly" [] 7
      backup_definition backup defined refl has_nightly stale
