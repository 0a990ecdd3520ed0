-- ===== src/RegisterQueue.antt =====
-- func_helper/register_queue.py: the queue of registrations and its workers. A state is what holds
-- between two steps of the event loop. `taken` are the jobs that a worker has got from the queue
-- and not yet counted as active; a running job knows whether its account has been counted in `tem`.
mod Tests
pub mod Counts
pub mod Capacity
pub mod Created
use sakura_embyboss.Prelude.{
  ℕ, zero, suc, ◌+◌, ◌-◌, min, max, ℤ, pos, or_zero, leb_ℤ, String, Bool, true, false, not, ◌&&◌,
  ◌||◌, ◌≡◌, Option, none, some, List, [], ◌∷◌, ◌==◌, eq_int, if◌then◌else◌, leb, truthy, length,
  ◌++◌,
}
use sakura_embyboss.Database.{DateTime, Emby}

pub record RegisterJob : Type 0 where
  pub user_id : ℤ
  pub username : String
  pub pwd2 : String
  pub stats : Bool
  pub days : ℤ

-- `_open`: the limits that the administrators set. They stay during a run.
pub record Open : Type 0 where
  pub all_user : ℕ
  pub register_worker_count : Option ℕ
  pub register_queue_limit : Option ℕ

pub record RegisterQueueManager : Type 0 where
  pub queue : List RegisterJob
  pub taken : List RegisterJob
  pub running : List (RegisterJob × Bool)
  pub busy_users : List ℤ
  pub reserved_slots : ℕ
  pub active_jobs : ℕ
  -- `_open.tem`, the number of accounts
  pub tem : ℕ

-- `int(value or default)`
abbrev pub or_default : Option ℕ → ℕ → ℕ
or_default none default = default
or_default (some n) default = if leb n 0 then default else n

abbrev pub configured_worker_count : Open → ℕ
configured_worker_count o = max 1 (or_default o.register_worker_count 5)

abbrev pub configured_queue_limit : Open → ℕ
configured_queue_limit o = max 1 (or_default o.register_queue_limit 100)

-- ℕ's `-` stops at 0, as `max(0, …)` does.
abbrev pub remaining_slot_count : Open → RegisterQueueManager → ℕ
remaining_slot_count o s = o.all_user - s.tem

abbrev pub max_waiting_queue_size : Open → RegisterQueueManager → ℕ
max_waiting_queue_size o s =
    min (configured_queue_limit o) (remaining_slot_count o s - s.active_jobs)

-- `user_id in self._busy_users`
abbrev pub is_user_busy : ℤ → List ℤ → Bool
is_user_busy user [] = false
is_user_busy user (u ∷ us) = (u == user) || is_user_busy user us

-- The three results of `enqueue`.
pub data Answer : Type 0 where
  refused : String → Answer
  queued : ℕ → Answer

-- `enqueue` under the lock.
unfoldable pub enqueue : Open → RegisterJob → RegisterQueueManager → Answer × RegisterQueueManager
enqueue o job s =
    if is_user_busy job.user_id s.busy_users
    then (refused "duplicate", s)
    else if leb o.all_user (s.tem + s.reserved_slots)
    then (refused "slot_full", s)
    else if leb (max_waiting_queue_size o s) (length s.queue)
    then (refused "queue_full", s)
    else (
      queued (s.active_jobs + length s.queue + 1),
      record s {
        busy_users = job.user_id ∷ s.busy_users;
        reserved_slots = s.reserved_slots + 1;
        queue = s.queue ++ (job ∷ []);
      },
    )

-- `self._busy_users.discard(user_id)`
unfoldable pub discard : ℤ → List ℤ → List ℤ
discard user [] = []
discard user (u ∷ us) = let rest = discard user us in if u == user then rest else u ∷ rest

-- The `finally` of `_worker_loop`.
unfoldable pub release : ℤ → RegisterQueueManager → RegisterQueueManager
unfolding discard
release user s = record s {
  active_jobs = s.active_jobs - 1;
  busy_users = discard user s.busy_users;
  reserved_slots = s.reserved_slots - 1;
}

-- One job of a list, and the others.
pub data Pick {A : Type 0} (a : A) : List A → List A → Type 0 where
  head : {xs : List A} → Pick a (a ∷ xs) xs
  later : {x : A} {xs ys : List A} → Pick a xs ys → Pick a (x ∷ xs) (x ∷ ys)

-- The steps of the manager and its workers.
pub data Step (o : Open) (s : RegisterQueueManager) : RegisterQueueManager → Type 0 where
  enqueues : (job : RegisterJob) → Step o s (enqueue o job s).1
  -- `await self._queue.get()`
  takes :
      (job : RegisterJob) (rest : List RegisterJob)
      → s.queue ≡ job ∷ rest
      → Step o s (record s { queue = rest; taken = job ∷ s.taken })
  -- `self._active_jobs += 1` under the lock
  starts :
      (job : RegisterJob) (rest : List RegisterJob)
      → Pick job s.taken rest
      → Step o s (record s {
        taken = rest;
        running = (job, false) ∷ s.running;
        active_jobs = s.active_jobs + 1;
      })
  -- `tem_adduser()`
  counts :
      (job : RegisterJob) (rest : List (RegisterJob × Bool))
      → Pick (job, false) s.running rest
      → Step o s (record s { running = (job, true) ∷ rest; tem = s.tem + 1 })
  -- the end of a job, whether it has made an account or not
  finishes :
      (job : RegisterJob) (made : Bool) (rest : List (RegisterJob × Bool))
      → Pick (job, made) s.running rest
      → Step o s (record (release job.user_id s) { running = rest })

-- What `_process_job` ends with.
pub data Processed : Type 0 where
  no_user has_account unqualified full not_created : Processed
  rolled_back : String → Processed
  created : Emby → Processed

-- What `emby_create` returns of a new account: its identifier, password and expiry.
abbrev pub Creation : Type 0
Creation = String × String × DateTime

-- `int(current.us or 0) <= 0`
abbrev pub has_no_days : Emby → Bool
has_no_days u = leb_ℤ (or_zero u.us) (pos 0)

-- The values that `sql_update_emby` writes.
unfoldable pub registered : RegisterJob → DateTime → Creation → Emby → Emby
registered job now (eid, pwd, ex) u =
    let u' = record u {
      embyid = some eid;
      name = some job.username;
      pwd = some pwd;
      pwd2 = some job.pwd2;
      lv = some "b";
      cr = some now;
      ex = some ex;
    } in
    if job.stats then u' else record u' { us = some (pos 0) }

-- What the reads and writes of the row come to: `current` and `refreshed` are the answers of the two
-- `sql_get_emby`, which may be the row of another user, `target` is the row that the condition of
-- `sql_update_emby` finds, that of the user's tg, and `stored` whether its commit gets through.
pub record Rows : Type 0 where
  pub current : Option Emby
  pub refreshed : Option Emby
  pub target : Option Emby
  pub stored : Bool

-- `sql_update_emby(Emby.tg == job.user_id, …)`; `rolled_back` when it returns False.
abbrev pub update_target : RegisterJob → DateTime → Creation → Option Emby → Bool → Processed
update_target job now (eid, pwd, ex) none stored = rolled_back eid
update_target job now (eid, pwd, ex) (some u) stored =
    if stored then created (registered job now (eid, pwd, ex) u) else rolled_back eid

-- From the second read on.
abbrev pub save_created :
    RegisterJob → DateTime → Creation → Option Emby → Option Emby → Bool → Processed
save_created job now (eid, pwd, ex) none target stored = rolled_back eid
save_created job now (eid, pwd, ex) (some u) target stored =
    if truthy u.embyid then rolled_back eid else update_target job now (eid, pwd, ex) target stored

abbrev pub after_creation : RegisterJob → DateTime → Rows → Option Creation → Processed
after_creation job now rows none = not_created
after_creation job now rows (some data') =
    save_created job now data' rows.refreshed rows.target rows.stored

abbrev pub process_current :
    Open → RegisterJob → DateTime → ℕ → Option Creation → Rows → Option Emby → Processed
process_current o job now tem made rows none = no_user
process_current o job now tem made rows (some current) =
    if truthy current.embyid
    then has_account
    else if not job.stats && has_no_days current
    then unqualified
    else if leb o.all_user tem
    then full
    else after_creation job now rows made

-- `_process_job`: `made` is what the server answers to the creation.
unfoldable pub process_job : Open → RegisterJob → DateTime → ℕ → Option Creation → Rows → Processed
unfolding registered
process_job o job now tem made rows = process_current o job now tem made rows rows.current
