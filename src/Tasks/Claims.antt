-- ===== src/Tasks/Claims.antt =====
-- `claim` of application/task_service.py: the tasks whose lease has run out, then one candidate.
use sakura_embyboss.Prelude.{
  ℕ, ◌+◌, String, true, ◌≡◌, refl, sym, subst, inl, inr, Option, none, some, List, [], ◌∷◌, map,
  eq_string, first, replace, Bool-cases, Option-cases,
}
use sakura_embyboss.Exec.{Exec, Result, ok, ◌>>=◌, bind_ok, settle}
use sakura_embyboss.Database.{Db, DateTime, OperationTask}
use sakura_embyboss.Operations.{event}
use sakura_embyboss.TaskRow.{is_expired, claimed, seconds}
use sakura_embyboss.TaskTypes.{TaskView, serialize_task}
use sakura_embyboss.TaskClaim.{
  recover, recover_events, recover_leases, due_rows, limit, claimable_row, claim_first,
  claim_next_task, report_claim, claim,
}

-- A run that succeeds and leaves the rows as they are.
abbrev KeepsRows : Db → Result (Unit {0}) × Db → Type 0
KeepsRows db out = (out.0 ≡ ok tt) × (out.1.tasks ≡ db.tasks)

recover_events-keep :
    (now : DateTime) (rows : List OperationTask) (db : Db)
    → KeepsRows db (recover_events now rows db)
unfolding recover_events event
recover_events-keep now [] db = (refl, refl)
recover_events-keep now (t ∷ ts) db = elim (Bool-cases (is_expired now t)) [
  | inl h ↦ rw h (let (good, same) = recover_events-keep now ts _ in (good, same))
  | inr h ↦ rw h (recover_events-keep now ts db)
]

-- The outcome of the loop over the candidates.
pub data Taken (worker_id : String) (now until : DateTime) (db : Db)
    : Result (Option OperationTask) × Db → Type 0 where
  nobody : Taken worker_id now until db (ok none, db)
  taken :
      (id : String) (t : OperationTask)
      → first (claimable_row now id) db.tasks ≡ some t
      → Taken worker_id now until db (
        ok (some (claimed worker_id now until t)),
        record db {
          tasks = replace (claimable_row now id) (claimed worker_id now until t) db.tasks;
        },
      )

pub claim_first-Taken :
    (worker_id : String) (now until : DateTime) (cs : List OperationTask) (db : Db)
    → Taken worker_id now until db (claim_first worker_id now until cs db)
unfolding claim_first
claim_first-Taken worker_id now until [] db = nobody
claim_first-Taken worker_id now until (c ∷ cs) db =
    elim (Option-cases (first (claimable_row now c.id) db.tasks)) [
      | inl e ↦ rw e (claim_first-Taken worker_id now until cs db)
      | inr (t, e) ↦ rw e (taken c.id t e)
    ]

-- The outcome of `claim`: no task, or the one row that it now holds.
pub data Claimed (worker_id : String) (now until : DateTime) (rows : List OperationTask)
    : Result (Option TaskView) → List OperationTask → Type 0 where
  idle : Claimed worker_id now until rows (ok none) rows
  holds :
      (id : String) (t : OperationTask)
      → first (claimable_row now id) rows ≡ some t
      → Claimed worker_id now until rows
          (ok (some (serialize_task (claimed worker_id now until t) true)))
          (replace (claimable_row now id) (claimed worker_id now until t) rows)

-- The tables that `claim` chooses from.
abbrev pub recovered_rows : DateTime → Db → List OperationTask
recovered_rows now db = map (recover now) db.tasks

module _ (view : List OperationTask → List OperationTask) (worker_id : String) (lease_seconds : ℕ)
    (now : DateTime) (db : Db) where
  abbrev pub until : DateTime
  until = now + seconds lease_seconds

  abbrev Good : List OperationTask → Result (Option TaskView) × Db → Type 0
  Good rows out =
      Claimed worker_id now until rows (settle out.0 db out.1).0 (settle out.0 db out.1).1.tasks

  abbrev next : Exec Db (Option OperationTask)
  next = claim_next_task view worker_id now until

  abbrev chosen : Exec Db (Option TaskView)
  chosen = next >>= report_claim

  reported :
      (base : Db) (out : Result (Option OperationTask) × Db)
      → next base ≡ out
      → Taken worker_id now until base out
      → Good base.tasks (chosen base)
  unfolding event
  reported base _ e nobody =
      subst (Good base.tasks) (sym (bind_ok next report_claim base base none e)) idle
  reported base _ e (taken id t found) =
      subst (Good base.tasks)
        (sym (bind_ok next report_claim base _ (some (claimed worker_id now until t)) e))
        (holds id t found)

  recovering : KeepsRows (record db { tasks = recovered_rows now db }) (recover_leases now db)
  unfolding recover_leases
  recovering = recover_events-keep now db.tasks (record db { tasks = recovered_rows now db })

  abbrev base : Db
  base = (recover_leases now db).1

  base_reached : recover_leases now db ≡ (ok tt, base)
  base_reached = rw (recovering.0) refl

  next-Taken : Taken worker_id now until base (next base)
  unfolding claim_next_task
  next-Taken =
      claim_first-Taken worker_id now until (limit 10 (due_rows now (view base.tasks))) base

  -- For any older view that the worker's SELECT reads.
  pub claim-Claimed :
      Claimed worker_id now until
        (recovered_rows now db)
        (claim view worker_id lease_seconds now db).0
        (claim view worker_id lease_seconds now db).1.tasks
  unfolding claim
  claim-Claimed =
      subst (λ rows. Good rows ((recover_leases now >>= λ _. chosen) db)) recovering.1
        (subst (Good base.tasks)
          (sym (bind_ok (recover_leases now) (λ _. chosen) db base tt base_reached))
          (reported base (next base) refl next-Taken))
