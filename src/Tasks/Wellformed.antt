-- ===== src/Tasks/Wellformed.antt =====
-- What is true of every row of operation_tasks between two calls of application/task_service.py.
use sakura_embyboss.Prelude.{
  ℕ, ◌+◌, ◌≤◌, String, Bool, true, false, ◌≡◌, refl, sym, inl, inr, ap, ◌∙◌, Option, none,
  if◌then◌else◌, Bool-cases, arith, is_some, leb,
}
use sakura_embyboss.Database.{
  DateTime, Fields, Actor, OperationTask, TaskStatus, pending, running, retrying, succeeded, failed,
  canceled,
}
use sakura_embyboss.TaskRow.{
  is_running, is_waiting, is_terminal, canceled_by_user, recovered, completed, failed_by,
}
use sakura_embyboss.Tasks.{new_task}
use sakura_embyboss.Tasks.Steps.{
  Step, stays, cancels, expires, claims, beats, completes, fails, Retry, kept, retried,
}

abbrev pub is_canceled : TaskStatus → Bool
is_canceled canceled = true
is_canceled _ = false

pub record IsWf (t : OperationTask) : Type 0 where
  pub locked : is_some t.locked_by ≡ is_running t.status
  pub leased : is_some t.lease_expires_at ≡ is_running t.status
  pub finished : is_some t.finished_at ≡ is_terminal t.status
  pub stopped : is_running t.status ≡ false → t.cancel_requested ≡ is_canceled t.status
  pub retries_left : is_terminal t.status ≡ false → t.retry_count ≤ t.max_retries

pub new_task-IsWf :
    (id task_type : String) (payload : Fields) (actor : Actor) (key : Option String)
    (max_retries : ℕ) (now : DateTime)
    → IsWf (new_task id task_type payload actor key max_retries now)
new_task-IsWf id task_type payload actor key max_retries now = record {
  locked = refl;
  leased = refl;
  finished = refl;
  stopped = λ h. refl;
  retries_left = λ h. omega arith;
}

pub Retry-IsWf : {t u : OperationTask} → Retry t u → IsWf t → IsWf u
Retry-IsWf kept w = w
Retry-IsWf (retried now h) w = record {
  locked = refl;
  leased = refl;
  finished = refl;
  stopped = λ h. refl;
  retries_left = λ h. omega arith;
}

leb-true : (a b : ℕ) → leb a b ≡ true → a ≤ b
leb-true a b h = ground arith

-- The three kinds of states exclude each other.
running_only :
    (s : TaskStatus) → is_running s ≡ true → (is_waiting s ≡ false) × (is_terminal s ≡ false)
running_only pending h = cc
running_only running h = (refl, refl)
running_only retrying h = cc
running_only succeeded h = cc
running_only failed h = cc
running_only canceled h = cc

waiting_only :
    (s : TaskStatus) → is_waiting s ≡ true → (is_running s ≡ false) × (is_terminal s ≡ false)
waiting_only pending h = (refl, refl)
waiting_only running h = cc
waiting_only retrying h = (refl, refl)
waiting_only succeeded h = cc
waiting_only failed h = cc
waiting_only canceled h = cc

running_last : (s : TaskStatus) → is_waiting s ≡ false → is_terminal s ≡ false → is_running s ≡ true
running_last pending h e = cc
running_last running h e = refl
running_last retrying h e = cc
running_last succeeded h e = cc
running_last failed h e = cc
running_last canceled h e = cc

data EndsAs (t u : OperationTask) : Type 0 where
  gives_up :
      t.cancel_requested ≡ true → u.status ≡ canceled → is_some u.finished_at ≡ true → EndsAs t u
  waits :
      t.cancel_requested ≡ false
      → leb (t.retry_count + 1) t.max_retries ≡ true
      → u.status ≡ retrying
      → u.finished_at ≡ t.finished_at
      → EndsAs t u
  is_lost :
      t.cancel_requested ≡ false
      → leb (t.retry_count + 1) t.max_retries ≡ false
      → u.status ≡ failed
      → is_some u.finished_at ≡ true
      → EndsAs t u

-- The end of an attempt without success, of a task that was running.
ends-IsWf :
    (t u : OperationTask)
    → is_running t.status ≡ true
    → IsWf t
    → u.locked_by ≡ none
    → u.lease_expires_at ≡ none
    → u.cancel_requested ≡ t.cancel_requested
    → u.retry_count ≡ t.retry_count + 1
    → u.max_retries ≡ t.max_retries
    → EndsAs t u
    → IsWf u
ends-IsWf t u r w el ee ec er em (gives_up c es ef) = record {
  locked = rw (el, es);
  leased = rw (ee, es);
  finished = rw (es, ef);
  stopped = λ h. rw (ec, c, es);
  retries_left = λ h. cc;
}
ends-IsWf t u r w el ee ec er em (waits c b es ef) = record {
  locked = rw (el, es);
  leased = rw (ee, es);
  finished = rw (es, ef) (w.finished ∙ (running_only t.status r).1);
  stopped = λ h. rw (ec, c, es);
  retries_left = λ h. rw (er, em) (leb-true (t.retry_count + 1) t.max_retries b);
}
ends-IsWf t u r w el ee ec er em (is_lost c b es ef) = record {
  locked = rw (el, es);
  leased = rw (ee, es);
  finished = rw (es, ef);
  stopped = λ h. rw (ec, c, es);
  retries_left = λ h. cc;
}

failed_by-IsWf :
    (now : DateTime) (error : String) (t : OperationTask)
    → is_running t.status ≡ true
    → IsWf t
    → IsWf (failed_by now error t)
unfolding failed_by
failed_by-IsWf now error t r w = elim (Bool-cases t.cancel_requested) [
  | inl c ↦ rw c (ends-IsWf t _ r w refl refl (sym c) refl refl (gives_up c refl refl))
  | inr c ↦ elim (Bool-cases (leb (t.retry_count + 1) t.max_retries)) [
    | inl b ↦ rw (c, b) (ends-IsWf t _ r w refl refl (sym c) refl refl (waits c b refl refl))
    | inr b ↦ rw (c, b) (ends-IsWf t _ r w refl refl (sym c) refl refl (is_lost c b refl refl))
  ]
]

recovered-IsWf :
    (now : DateTime) (t : OperationTask)
    → is_running t.status ≡ true
    → IsWf t
    → IsWf (recovered now t)
recovered-IsWf now t r w = elim (Bool-cases t.cancel_requested) [
  | inl c ↦ rw c (ends-IsWf t _ r w refl refl (sym c) refl refl (gives_up c refl refl))
  | inr c ↦ elim (Bool-cases (leb (t.retry_count + 1) t.max_retries)) [
    | inl b ↦ rw (c, b) (ends-IsWf t _ r w refl refl (sym c) refl refl (waits c b refl refl))
    | inr b ↦ rw (c, b) (ends-IsWf t _ r w refl refl (sym c) refl refl (is_lost c b refl refl))
  ]
]

canceled-IsWf :
    (now : DateTime) (t : OperationTask)
    → is_terminal t.status ≡ false
    → IsWf t
    → IsWf (canceled_by_user now t)
canceled-IsWf now t h w = elim (Bool-cases (is_waiting t.status)) [
  | inl q ↦
      let (idle, over) = waiting_only t.status q in
      rw q (record {
        locked = w.locked ∙ idle;
        leased = w.leased ∙ idle;
        finished = refl;
        stopped = λ e. refl;
        retries_left = λ e. cc;
      })
  | inr q ↦
      let busy = running_last t.status q h in
      rw q (record {
        locked = w.locked;
        leased = w.leased;
        finished = w.finished;
        stopped = λ e. cc;
        retries_left = w.retries_left;
      })
]

completed-IsWf :
    (now : DateTime) (value : Fields) (t : OperationTask) → IsWf (completed now value t)
completed-IsWf now value t = elim (Bool-cases t.cancel_requested) [
  | inl c ↦ record {
    locked = rw c refl;
    leased = rw c refl;
    finished = rw c refl;
    stopped = λ e. rw c refl;
    retries_left = λ e. cc (ap (λ b. is_terminal (if b then canceled else succeeded)) c);
  }
  | inr c ↦ record {
    locked = rw c refl;
    leased = rw c refl;
    finished = rw c refl;
    stopped = λ e. rw c refl;
    retries_left = λ e. cc (ap (λ b. is_terminal (if b then canceled else succeeded)) c);
  }
]

pub Step-IsWf : {t u : OperationTask} → Step t u → IsWf t → IsWf u
Step-IsWf stays w = w
Step-IsWf {t} (claims worker_id now until h) w =
    let q : is_waiting t.status ≡ true = ground arith in
    let over = (waiting_only t.status q).1 in
    record {
      locked = refl;
      leased = refl;
      finished = w.finished ∙ over;
      stopped = λ r. cc;
      retries_left = λ r. w.retries_left over;
    }
Step-IsWf {t} (beats worker_id now lease h) w =
    let q : is_running t.status ≡ true = ground arith in
    record {
      locked = w.locked;
      leased = sym q;
      finished = w.finished;
      stopped = w.stopped;
      retries_left = w.retries_left;
    }
Step-IsWf {t} (completes worker_id now value h) w = completed-IsWf now value t
Step-IsWf {t} (fails worker_id now error h) w = failed_by-IsWf now error t (ground arith) w
Step-IsWf (cancels now h) w = canceled-IsWf now _ h w
Step-IsWf {t} (expires now h) w = recovered-IsWf now t (ground arith) w
