-- ===== src/Tasks/Fence.antt =====
-- The lease of a worker, and the delay of the next attempt, in application/task_service.py.
use sakura_embyboss.Prelude.{
  ◌≢◌, true, ◌&&◌, ℕ, zero, suc, ◌+◌, ◌^◌, ◌-◌, ◌≤◌, String, Bool, false, ◌≡◌, refl, sym, Option,
  none, some, arith, Bool-cases, inl, inr, Option-cases, leb, ◌⊎◌, subst, ◌∙◌, ap, eq_string,
}
use native.Mathlib.Omega.{pow_step}
use text.Mathlib.TextEquality.{eq_iff}
use sakura_embyboss.Exec.{ok}
use sakura_embyboss.Database.{
  TaskStatus, pending, running, succeeded, failed, canceled, Db, DateTime, Fields, OperationTask,
  retrying,
}
use sakura_embyboss.TaskRow.{holds, is_running, is_held_by, seconds, backoff, failed_by, recovered}
use sakura_embyboss.Tasks.{get_task, heartbeat, complete, fail}

-- The worker has no task of the identifier: it is gone, not running, or locked by another one or none.
abbrev pub Lost : String → Option OperationTask → Type 0
Lost worker_id none = Unit
Lost worker_id (some t) = (t.status ≢ running) ⊎ (t.locked_by ≢ some worker_id)

is_running_lem : (s : TaskStatus) → is_running s ≡ true → s ≡ running
is_running_lem running h = refl
is_running_lem pending h = cc
is_running_lem retrying h = cc
is_running_lem succeeded h = cc
is_running_lem failed h = cc
is_running_lem canceled h = cc

holds_lem : (o : Option String) (worker_id : String) → holds o worker_id ≡ true → o ≡ some worker_id
holds_lem none worker_id h = cc
holds_lem (some w) worker_id h = ap some ((eq_iff w worker_id).0 h)

both : (a b : Bool) → (a && b) ≡ true → (a ≡ true) × (b ≡ true)
both true true h = (refl, refl)
both true false h = cc
both false b h = cc

Lost-not_held :
    (worker_id : String) (t : OperationTask)
    → Lost worker_id (some t)
    → is_held_by worker_id t ≡ false
Lost-not_held worker_id t lost = elim (Bool-cases (is_held_by worker_id t)) [
  | inr e ↦ e
  | inl e ↦
      let (runs, held) = both (is_running t.status) (holds t.locked_by worker_id) e in
      absurd (go lost (is_running_lem t.status runs) (holds_lem t.locked_by worker_id held))
]
  where
    go : Lost worker_id (some t) → t.status ≡ running → t.locked_by ≡ some worker_id → ⊥
    go (inl n) s l = n s
    go (inr n) s l = n l

module _ (id worker_id : String) (now : DateTime) (db : Db) where
  -- A worker whose task is gone, is not running, or is locked by another worker or none (it is over, or
  -- was recovered and claimed again) is told so by each of its writes, the heartbeat, the result and
  -- the failure, and none of them changes anything.
  pub fenced :
      (lease_seconds : ℕ) (value : Fields) (error : String)
      → Lost worker_id (get_task id db)
      → (heartbeat id worker_id lease_seconds now db ≡ (ok false, db))
        × (complete id worker_id value now db ≡ (ok false, db))
        × (fail id worker_id error now db ≡ (ok false, db))
  unfolding heartbeat complete fail
  fenced lease_seconds value error h = elim (Option-cases (get_task id db)) [
    | inl e ↦ (rw e refl, rw e refl, rw e refl)
    | inr (t, e) ↦
        let out = Lost-not_held worker_id t (subst (Lost worker_id) e h) in
        (rw (e, out) refl, rw (e, out) refl, rw (e, out) refl)
  ]

two_power : (n : ℕ) → 1 ≤ 2 ^ n
two_power zero = omega arith
two_power (suc n) = omega (arith, pow_step 2 n, two_power n)

-- The delay before the next attempt is five seconds at least and five minutes at most.
backoff_range : (n : ℕ) → (5 ≤ backoff n) × (backoff n ≤ 300)
unfolding backoff
backoff_range n = (omega (arith, two_power (n - 1)), omega (arith, two_power (n - 1)))

abbrev InRange : DateTime → DateTime → Type 0
InRange now due = (now + seconds 5 ≤ due) × (due ≤ now + seconds 300)

delay : (now : DateTime) (n : ℕ) → InRange now (now + seconds (backoff n))
delay now n = let (low, high) = backoff_range n in (omega (arith, low), omega (arith, high))

failed_delay :
    (now : DateTime) (error : String) (t : OperationTask)
    → (failed_by now error t).status ≡ retrying
    → InRange now (failed_by now error t).next_run_at
unfolding failed_by
failed_delay now error t = elim (Bool-cases t.cancel_requested) [
  | inl c ↦ rw c (λ h. cc)
  | inr c ↦ elim (Bool-cases (leb (t.retry_count + 1) t.max_retries)) [
    | inl b ↦ rw (c, b) (λ h. delay now (t.retry_count + 1))
    | inr b ↦ rw (c, b) (λ h. cc)
  ]
]

recovered_delay :
    (now : DateTime) (t : OperationTask)
    → (recovered now t).status ≡ retrying
    → InRange now (recovered now t).next_run_at
recovered_delay now t = elim (Bool-cases t.cancel_requested) [
  | inl c ↦ rw c (λ h. cc)
  | inr c ↦ elim (Bool-cases (leb (t.retry_count + 1) t.max_retries)) [
    | inl b ↦ rw (c, b) (λ h. delay now (t.retry_count + 1))
    | inr b ↦ rw (c, b) (λ h. cc)
  ]
]

-- A task that is to be tried again, after a failure that its worker reports or after a lost lease,
-- becomes due between five seconds and five minutes later.
pub next_attempt_delay :
    (now : DateTime) (error : String) (t u : OperationTask)
    → (u ≡ failed_by now error t) ⊎ (u ≡ recovered now t)
    → u.status ≡ retrying
    → (now + seconds 5 ≤ u.next_run_at) × (u.next_run_at ≤ now + seconds 300)
next_attempt_delay now error t u (inl e) h =
    subst (λ (x : OperationTask). InRange now x.next_run_at) (sym e)
      (failed_delay now error t (sym (ap (λ (x : OperationTask). x.status) e) ∙ h))
next_attempt_delay now error t u (inr e) h =
    subst (λ (x : OperationTask). InRange now x.next_run_at) (sym e)
      (recovered_delay now t (sym (ap (λ (x : OperationTask). x.status) e) ∙ h))
