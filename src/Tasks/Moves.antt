-- ===== src/Tasks/Moves.antt =====
-- The steps that each call of application/task_service.py makes on the rows of operation_tasks.
use sakura_embyboss.Prelude.{
  ℕ, String, ◌≡◌, refl, inl, inr, List, eq_string, Bool-cases, Option-cases, arith,
}
use sakura_embyboss.Database.{Db, DateTime, Fields, Actor, OperationTask}
use sakura_embyboss.Operations.{event, audit}
use sakura_embyboss.TaskRow.{
  is_terminal, is_waiting, is_retryable, canceled_by_user, reset, is_held_by, beaten, completed,
  failed_by,
}
use sakura_embyboss.Tasks.{
  get_task, cancel, cancel_open, retry, retry_over, heartbeat, complete, fail,
}
use sakura_embyboss.Tasks.Steps.{
  Step, stays, cancels, beats, completes, fails, Retry, kept, retried, Rows, Rows-refl, save-Rows,
}

all_stay : (ts : List OperationTask) → Rows Step ts ts
all_stay = Rows-refl Step (λ t. stays)

canceled-id : (now : DateTime) (t : OperationTask) → (canceled_by_user now t).id ≡ t.id
canceled-id now t = elim (Bool-cases (is_waiting t.status)) [ inl h ↦ rw h | inr h ↦ rw h ]

pub cancel-Rows :
    (id : String) (actor : Actor) (now : DateTime) (db : Db)
    → Rows Step db.tasks (cancel id actor now db).1.tasks
unfolding cancel cancel_open event audit
cancel-Rows id actor now db = elim (Option-cases (get_task id db)) [
  | inl e ↦ rw e (all_stay db.tasks)
  | inr (t, e) ↦ elim (Bool-cases (is_terminal t.status)) [
    | inl h ↦ rw (e, h) (all_stay db.tasks)
    | inr h ↦
        rw (e, h)
          (save-Rows Step (λ t. stays) id t (canceled_by_user now t) db.tasks e (canceled-id now t)
            (cancels now h))
  ]
]

pub retry-Rows :
    (id : String) (actor : Actor) (now : DateTime) (db : Db)
    → Rows Retry db.tasks (retry id actor now db).1.tasks
unfolding retry retry_over event audit
retry-Rows id actor now db = elim (Option-cases (get_task id db)) [
  | inl e ↦ rw e (Rows-refl Retry (λ t. kept) db.tasks)
  | inr (t, e) ↦ elim (Bool-cases (is_retryable t.status)) [
    | inl h ↦
        rw (e, h) (save-Rows Retry (λ t. kept) id t (reset now t) db.tasks e refl (retried now h))
    | inr h ↦ rw (e, h) (Rows-refl Retry (λ t. kept) db.tasks)
  ]
]

-- A write of a worker.
module _ (id worker_id : String) (now : DateTime) (db : Db) where
  pub heartbeat-Rows :
      (lease_seconds : ℕ) → Rows Step db.tasks (heartbeat id worker_id lease_seconds now db).1.tasks
  unfolding heartbeat
  heartbeat-Rows lease_seconds = elim (Option-cases (get_task id db)) [
    | inl e ↦ rw e (all_stay db.tasks)
    | inr (t, e) ↦ elim (Bool-cases (is_held_by worker_id t)) [
      | inl h ↦
          rw (e, h)
            (save-Rows Step (λ t. stays) id t (beaten now lease_seconds t) db.tasks e refl
              (beats worker_id now lease_seconds h))
      | inr h ↦ rw (e, h) (all_stay db.tasks)
    ]
  ]

  pub complete-Rows :
      (value : Fields) → Rows Step db.tasks (complete id worker_id value now db).1.tasks
  unfolding complete event
  complete-Rows value = elim (Option-cases (get_task id db)) [
    | inl e ↦ rw e (all_stay db.tasks)
    | inr (t, e) ↦ elim (Bool-cases (is_held_by worker_id t)) [
      | inl h ↦
          rw (e, h)
            (save-Rows Step (λ t. stays) id t (completed now value t) db.tasks e refl
              (completes worker_id now value h))
      | inr h ↦ rw (e, h) (all_stay db.tasks)
    ]
  ]

  failed-id : (error : String) (t : OperationTask) → (failed_by now error t).id ≡ t.id
  unfolding failed_by
  failed-id error t = ground arith

  pub fail-Rows : (error : String) → Rows Step db.tasks (fail id worker_id error now db).1.tasks
  unfolding fail event
  fail-Rows error = elim (Option-cases (get_task id db)) [
    | inl e ↦ rw e (all_stay db.tasks)
    | inr (t, e) ↦ elim (Bool-cases (is_held_by worker_id t)) [
      | inl h ↦
          rw (e, h)
            (save-Rows Step (λ t. stays) id t (failed_by now error t) db.tasks e (failed-id error t)
              (fails worker_id now error h))
      | inr h ↦ rw (e, h) (all_stay db.tasks)
    ]
  ]
