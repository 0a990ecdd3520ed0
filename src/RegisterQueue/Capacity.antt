-- ===== src/RegisterQueue/Capacity.antt =====
-- The invariants of func_helper/register_queue.py: its counters, its set of users and its slots.
use sakura_embyboss.Prelude.{
  ℕ, ◌+◌, ◌≤◌, ℤ, Bool, false, ◌≡◌, refl, sym, subst, inl, inr, List, [], ◌∷◌, ◌++◌, ◌==◌, eq_int,
  leb, length, arith, Bool-cases, int_eq_iff,
}
use sakura_embyboss.RegisterQueue.{
  RegisterJob, Open, RegisterQueueManager, is_user_busy, enqueue, max_waiting_queue_size, discard,
  release, Pick, Step, enqueues, takes, starts, counts, finishes,
}
use sakura_embyboss.RegisterQueue.Counts.{
  one, count, count_jobs, count_running, uncounted, uncounted_le, length-snoc, count_jobs-snoc,
  idle_count, discard-same, discard-other, Pick-length, Pick-count_jobs, Pick-count_running,
  Pick-uncounted,
}

-- The counters are the lengths, the set of busy users is that of the jobs, each of them once, and
-- the accounts with the jobs that may still make one fit the limit.
pub record IsSound (o : Open) (s : RegisterQueueManager) : Type 0 where
  pub reserved : s.reserved_slots ≡ length s.queue + length s.taken + length s.running
  pub active : s.active_jobs ≡ length s.running
  pub busy :
      (user : ℤ)
      → count user s.busy_users
        ≡ count_jobs user s.queue + count_jobs user s.taken + count_running user s.running
  pub once : (user : ℤ) → count user s.busy_users ≤ 1
  pub slots : s.tem + length s.queue + length s.taken + uncounted s.running ≤ o.all_user

module _ (o : Open) (s : RegisterQueueManager) (w : IsSound o s) where
  enqueue-IsSound : (job : RegisterJob) → IsSound o (enqueue o job s).1
  unfolding enqueue
  enqueue-IsSound job = elim (Bool-cases (is_user_busy job.user_id s.busy_users)) [
    | inl h ↦ rw h w
    | inr h ↦ elim (Bool-cases (leb o.all_user (s.tem + s.reserved_slots))) [
      | inl f ↦ rw (h, f) w
      | inr f ↦ elim (Bool-cases (leb (max_waiting_queue_size o s) (length s.queue))) [
        | inl g ↦ rw (h, f, g) w
        | inr g ↦
            rw (h, f, g)
              (record {
                reserved = omega (arith, w.reserved, length-snoc s.queue job);
                active = w.active;
                busy = λ user. omega (arith, w.busy user, count_jobs-snoc user s.queue job);
                once = λ user. enters user job h;
                slots = fits job f;
              })
      ]
    ]
  ]
    where
      enters :
          (user : ℤ) (job : RegisterJob)
          → is_user_busy job.user_id s.busy_users ≡ false
          → one user job.user_id + count user s.busy_users ≤ 1
      enters user job h = elim (Bool-cases (job.user_id == user)) [
        | inl e ↦
            let q : job.user_id ≡ user = (int_eq_iff job.user_id user).0 e in
            let none : count user s.busy_users ≡ 0 =
              subst (λ k. count k s.busy_users ≡ 0) q (idle_count job.user_id s.busy_users h) in
            rw e (omega (arith, none))
        | inr e ↦ rw e (omega (arith, w.once user))
      ]

      fits :
          (job : RegisterJob)
          → leb o.all_user (s.tem + s.reserved_slots) ≡ false
          → s.tem + length (s.queue ++ (job ∷ [])) + length s.taken + uncounted s.running
            ≤ o.all_user
      fits job f =
          let free : s.tem + s.reserved_slots + 1 ≤ o.all_user = ground arith in
          omega (arith, free, w.reserved, length-snoc s.queue job, uncounted_le s.running)

  finish-IsSound :
      (job : RegisterJob) (made : Bool) (rest : List (RegisterJob × Bool))
      → Pick (job, made) s.running rest
      → IsSound o (record (release job.user_id s) { running = rest })
  unfolding release
  finish-IsSound job made rest p = record {
    reserved = omega (arith, w.reserved, Pick-length p);
    active = omega (arith, w.active, Pick-length p);
    busy = λ user. leaves user;
    once = λ user. at_most user;
    slots = omega (arith, w.slots, Pick-uncounted p);
  }
    where
      leaves :
          (user : ℤ)
          → count user (discard job.user_id s.busy_users)
            ≡ count_jobs user s.queue + count_jobs user s.taken + count_running user rest
      leaves user = elim (Bool-cases (job.user_id == user)) [
        | inl e ↦
            let q : job.user_id ≡ user = (int_eq_iff job.user_id user).0 e in
            let gone : count user (discard job.user_id s.busy_users) ≡ 0 =
              subst (λ k. count user (discard k s.busy_users) ≡ 0) (sym q)
                (discard-same user s.busy_users) in
            let here : one user job.user_id ≡ 1 = rw e refl in
            omega (arith, gone, here, w.busy user, w.once user, Pick-count_running user p)
        | inr e ↦
            let here : one user job.user_id ≡ 0 = rw e refl in
            omega (
              arith,
              here,
              discard-other job.user_id user s.busy_users e,
              w.busy user,
              Pick-count_running user p,
            )
      ]

      at_most : (user : ℤ) → count user (discard job.user_id s.busy_users) ≤ 1
      at_most user = elim (Bool-cases (job.user_id == user)) [
        | inl e ↦
            let q : job.user_id ≡ user = (int_eq_iff job.user_id user).0 e in
            let gone : count user (discard job.user_id s.busy_users) ≡ 0 =
              subst (λ k. count user (discard k s.busy_users) ≡ 0) (sym q)
                (discard-same user s.busy_users) in
            omega (arith, gone)
        | inr e ↦ omega (arith, discard-other job.user_id user s.busy_users e, w.once user)
      ]

  Step-IsSound : {s' : RegisterQueueManager} → Step o s s' → IsSound o s'
  Step-IsSound (enqueues job) = enqueue-IsSound job
  Step-IsSound (takes job rest e) =
      let size : length s.queue ≡ length rest + 1 = rw e (omega arith) in
      record {
        reserved = omega (arith, w.reserved, size);
        active = w.active;
        busy = λ user.
            let jobs : count_jobs user s.queue ≡ one user job.user_id + count_jobs user rest =
              rw e refl in
            omega (arith, w.busy user, jobs);
        once = w.once;
        slots = omega (arith, w.slots, size);
      }
  Step-IsSound (starts job rest p) = record {
    reserved = omega (arith, w.reserved, Pick-length p);
    active = omega (arith, w.active);
    busy = λ user. omega (arith, w.busy user, Pick-count_jobs user p);
    once = w.once;
    slots = omega (arith, w.slots, Pick-length p);
  }
  Step-IsSound (counts job rest p) = record {
    reserved = omega (arith, w.reserved, Pick-length p);
    active = omega (arith, w.active, Pick-length p);
    busy = λ user. omega (arith, w.busy user, Pick-count_running user p);
    once = w.once;
    slots = omega (arith, w.slots, Pick-uncounted p);
  }
  Step-IsSound (finishes job made rest p) = finish-IsSound job made rest p

-- The states that a run reaches.
pub data Reaches (o : Open) (s : RegisterQueueManager) : RegisterQueueManager → Type 0 where
  start : Reaches o s s
  step : {m t : RegisterQueueManager} → Reaches o s m → Step o m t → Reaches o s t

-- `RegisterQueueManager()`, with the number of accounts at that time.
abbrev pub initial : ℕ → RegisterQueueManager
initial tem = record {
  queue = [];
  taken = [];
  running = [];
  busy_users = [];
  reserved_slots = 0;
  active_jobs = 0;
  tem = tem;
}

initial-IsSound : (o : Open) (tem : ℕ) → tem ≤ o.all_user → IsSound o (initial tem)
initial-IsSound o tem h = record {
  reserved = refl;
  active = refl;
  busy = λ user. refl;
  once = λ user. omega arith;
  slots = omega (arith, h);
}

-- In every state that the manager reaches from its start, if the accounts fit the limit then: the
-- slots reserved are the jobs in the queue, got by a worker or running, the active jobs are those
-- running, the busy users are the users of these jobs, each with one job, and the accounts with
-- the jobs that may still make one fit the limit.
pub reached-IsSound :
    (o : Open) (tem : ℕ) {s : RegisterQueueManager}
    → tem ≤ o.all_user
    → Reaches o (initial tem) s
    → IsSound o s
reached-IsSound o tem h start = initial-IsSound o tem h
reached-IsSound o tem h (step {m = m} r k) = Step-IsSound o m (reached-IsSound o tem h r) k
