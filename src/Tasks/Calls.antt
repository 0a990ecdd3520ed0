-- ===== src/Tasks/Calls.antt =====
-- Calls of application/task_service.py by the web API, the schedulers and any number of workers, in
-- any order.
use sakura_embyboss.Prelude.{
  ℕ, ◌+◌, ◌≤◌, String, true, ◌≡◌, Option, none, some, List, [], ◌∷◌, arith, All, All-replace,
  Bool-cases, inl, inr, All-first, first_holds,
}
use sakura_embyboss.Exec.{Result, ok, err}
use sakura_embyboss.Database.{Db, DateTime, Fields, Actor, OperationTask}
use sakura_embyboss.TaskTypes.{TaskView}
use sakura_embyboss.TaskRow.{claimed, is_expired, is_claimable}
use sakura_embyboss.Tasks.{enqueue, cancel, retry, heartbeat, complete, fail}
use sakura_embyboss.TaskClaim.{recover, claimable_row, claim}
use sakura_embyboss.Tasks.Steps.{Step, stays, expires, claims, Retry, Rows, Rows-map}
use sakura_embyboss.Tasks.Moves.{cancel-Rows, retry-Rows, heartbeat-Rows, complete-Rows, fail-Rows}
use sakura_embyboss.Tasks.Claims.{Claimed, idle, holds, claim-Claimed, recovered_rows, until}
use sakura_embyboss.Tasks.Enqueue.{Enqueued, unchanged, added, enqueue-Enqueued}
use sakura_embyboss.Tasks.Wellformed.{IsWf, Step-IsWf, Retry-IsWf, new_task-IsWf}
use sakura_embyboss.Tasks.Attempts.{capacity, Rows-capacity, replace-capacity, claimed-left}

-- A call about tasks that are there. A claim carries the snapshot that its SELECT reads.
pub data WorkCall : Type 0 where
  cancels_task : String → Actor → DateTime → WorkCall
  claims_task : (List OperationTask → List OperationTask) → String → ℕ → DateTime → WorkCall
  beats : String → String → ℕ → DateTime → WorkCall
  completes_task : String → String → Fields → DateTime → WorkCall
  fails_task : String → String → String → DateTime → WorkCall

abbrev pub work : WorkCall → Db → Db
work (cancels_task id actor now) db = (cancel id actor now db).1
work (claims_task view worker_id lease_seconds now) db =
    (claim view worker_id lease_seconds now db).1
work (beats id worker_id lease_seconds now) db = (heartbeat id worker_id lease_seconds now db).1
work (completes_task id worker_id value now) db = (complete id worker_id value now db).1
work (fails_task id worker_id error now) db = (fail id worker_id error now db).1

abbrev pub work_all : List WorkCall → Db → Db
work_all [] db = db
work_all (c ∷ cs) db = work_all cs (work c db)

-- One for a claim that hands a task out.
abbrev pub handed : Result (Option TaskView) → ℕ
handed (ok none) = 0
handed (ok (some t)) = 1
handed (err e) = 0

abbrev pub handed_by : WorkCall → Db → ℕ
handed_by (cancels_task id actor now) db = 0
handed_by (claims_task view worker_id lease_seconds now) db =
    handed (claim view worker_id lease_seconds now db).0
handed_by (beats id worker_id lease_seconds now) db = 0
handed_by (completes_task id worker_id value now) db = 0
handed_by (fails_task id worker_id error now) db = 0

abbrev pub handed_out : List WorkCall → Db → ℕ
handed_out [] db = 0
handed_out (c ∷ cs) db = handed_by c db + handed_out cs (work c db)

recover-Step : (now : DateTime) (t : OperationTask) → Step t (recover now t)
recover-Step now t = elim (Bool-cases (is_expired now t)) [
  | inl h ↦ rw h (expires now h)
  | inr h ↦ rw h stays
]

Rows-IsWf :
    (R : OperationTask → OperationTask → Type 0)
    → ((t u : OperationTask) → R t u → IsWf t → IsWf u)
    → (ts us : List OperationTask) → Rows R ts us
    → All IsWf ts
    → All IsWf us
Rows-IsWf R keeps [] [] r w = tt
Rows-IsWf R keeps [] (u ∷ us) r w = absurd r
Rows-IsWf R keeps (t ∷ ts) [] r w = absurd r
Rows-IsWf R keeps (t ∷ ts) (u ∷ us) (step, rest) (w, ws) =
    (keeps t u step w, Rows-IsWf R keeps ts us rest ws)

-- What holds of the table after a call of a worker, and the attempts that it uses.
abbrev Works : List OperationTask → ℕ → List OperationTask → Type 0
Works ts n us = All IsWf us × (n + capacity us ≤ capacity ts)

moved : (ts us : List OperationTask) → Rows Step ts us → All IsWf ts → Works ts 0 us
moved ts us r w =
    (Rows-IsWf Step (λ t u. Step-IsWf) ts us r w, omega (arith, Rows-capacity ts us r w))

claimed-Works :
    (worker_id : String) (now until : DateTime) (ts : List OperationTask)
    (out : Result (Option TaskView)) (us : List OperationTask)
    → Claimed worker_id now until ts out us
    → All IsWf ts
    → Works ts (handed out) us
claimed-Works worker_id now until ts _ _ idle w = (w, omega arith)
claimed-Works worker_id now until ts _ _ (holds id t e) w =
    let u = claimed worker_id now until t in
    let both : claimable_row now id t ≡ true = first_holds (claimable_row now id) ts e in
    let h : is_claimable now t ≡ true = ground arith in
    let good = All-first IsWf (claimable_row now id) ts w e in
    (
      All-replace IsWf (claimable_row now id) u ts (Step-IsWf (claims worker_id now until h) good)
          w,
      omega (
        arith,
        replace-capacity (claimable_row now id) u ts e w (claimed-left worker_id now until t h),
      ),
    )

claim-Works :
    (view : List OperationTask → List OperationTask) (worker_id : String) (lease_seconds : ℕ)
    (now : DateTime) (db : Db)
    → All IsWf db.tasks
    → Works db.tasks
        (handed (claim view worker_id lease_seconds now db).0)
        (claim view worker_id lease_seconds now db).1.tasks
claim-Works view worker_id lease_seconds now db w =
    let rows = recovered_rows now db in
    let (w1, less1) =
      moved db.tasks rows (Rows-map Step (λ t. stays) (recover now) db.tasks (recover-Step now))
        w in
    let (w2, less2) =
      claimed-Works worker_id now (until view worker_id lease_seconds now db) rows _ _
        (claim-Claimed view worker_id lease_seconds now db) w1 in
    (w2, omega (arith, less1, less2))

work-Works :
    (c : WorkCall) (db : Db) → All IsWf db.tasks → Works db.tasks (handed_by c db) (work c db).tasks
work-Works (cancels_task id actor now) db w = moved db.tasks _ (cancel-Rows id actor now db) w
work-Works (claims_task view worker_id lease_seconds now) db w =
    claim-Works view worker_id lease_seconds now db w
work-Works (beats id worker_id lease_seconds now) db w =
    moved db.tasks _ (heartbeat-Rows id worker_id now db lease_seconds) w
work-Works (completes_task id worker_id value now) db w =
    moved db.tasks _ (complete-Rows id worker_id now db value) w
work-Works (fails_task id worker_id error now) db w =
    moved db.tasks _ (fail-Rows id worker_id now db error) w

-- However often workers claim, beat, complete and fail tasks, however stale the snapshots they
-- choose from, and whenever a user cancels: while nothing is enqueued or retried, the claims that
-- hand a task out and the attempts that the rows have left after them are at most the attempts
-- left at the start, which are max_retries and one more for a new row. The rows are well-formed at
-- the start.
pub handed_out_bound :
    (cs : List WorkCall) (db : Db)
    → All IsWf db.tasks
    → handed_out cs db + capacity (work_all cs db).tasks ≤ capacity db.tasks
handed_out_bound [] db w = omega arith
handed_out_bound (c ∷ cs) db w =
    let (w', less) = work-Works c db w in omega (arith, less, handed_out_bound cs (work c db) w')

-- Any call of the service.
pub data Call : Type 0 where
  works : WorkCall → Call
  enqueues :
      (List OperationTask → List OperationTask)
      → String
      → String
      → Fields
      → Actor
      → Option String
      → DateTime
      → Call
  retries : String → Actor → DateTime → Call

abbrev pub run : Call → Db → Db
run (works c) db = work c db
run (enqueues view id task_type payload actor key now) db =
    (enqueue view id task_type payload actor key now db).1
run (retries id actor now) db = (retry id actor now db).1

abbrev pub run_all : List Call → Db → Db
run_all [] db = db
run_all (c ∷ cs) db = run_all cs (run c db)

Enqueued-IsWf : (ts us : List OperationTask) → Enqueued ts us → All IsWf ts → All IsWf us
Enqueued-IsWf ts _ unchanged w = w
Enqueued-IsWf ts _ (added id task_type payload actor key max_retries now) w =
    (new_task-IsWf id task_type payload actor key max_retries now, w)

run-IsWf : (c : Call) (db : Db) → All IsWf db.tasks → All IsWf (run c db).tasks
run-IsWf (works c) db w = (work-Works c db w).0
run-IsWf (enqueues view id task_type payload actor key now) db w =
    Enqueued-IsWf db.tasks _ (enqueue-Enqueued view id task_type payload actor key now db) w
run-IsWf (retries id actor now) db w =
    Rows-IsWf Retry (λ t u. Retry-IsWf) db.tasks _ (retry-Rows id actor now db) w

-- Calls keep the rows well-formed: a row has a worker and a lease exactly while it is running, an
-- end time exactly when it is over, a cancel request without being run exactly when it is canceled,
-- and until it is over it has failed at most max_retries times.
pub run_all-IsWf : (cs : List Call) (db : Db) → All IsWf db.tasks → All IsWf (run_all cs db).tasks
run_all-IsWf [] db w = w
run_all-IsWf (c ∷ cs) db w = run_all-IsWf cs (run c db) (run-IsWf c db w)
