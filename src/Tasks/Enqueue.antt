-- ===== src/Tasks/Enqueue.antt =====
-- `enqueue` of application/task_service.py: what it adds, and a key that is already taken.
use sakura_embyboss.Prelude.{
  ℕ, Option-cases, Bool-cases, String, sym, ◌∙◌, true, false, ◌≡◌, refl, subst, ◌⊎◌, inl, inr,
  Option, none, some, List, ◌∷◌, ◌==◌, eq_string, first, arith, is_some, ◌||◌,
}
use sakura_embyboss.Exec.{Result, ok, err, integrity_error, bind_ok, bind_err}
use sakura_embyboss.Database.{Db, DateTime, Fields, Actor, OperationTask}
use sakura_embyboss.Operations.{event, audit}
use sakura_embyboss.TaskTypes.{TaskDefinition, find_definition}
use sakura_embyboss.Tasks.{
  has_id, has_key, find_by_key, key_taken, new_task, add_task, note_new, enqueue_new, enqueue_once,
  enqueue_again, rescue, enqueue_as, TaskResult, enqueue, answer,
}

-- What `enqueue_new` leaves of the table.
add_clash :
    (t : OperationTask) (db : Db)
    → (is_some (first (has_id t.id) db.tasks) || key_taken t.idempotency_key db.tasks) ≡ true
    → add_task t db ≡ (err integrity_error, db)
unfolding add_task
add_clash t db h = rw h refl

add_fresh :
    (t : OperationTask) (db : Db)
    → (is_some (first (has_id t.id) db.tasks) || key_taken t.idempotency_key db.tasks) ≡ false
    → add_task t db ≡ (ok tt, record db { tasks = t ∷ db.tasks })
unfolding add_task
add_fresh t db h = rw h refl

enqueue_new_clash :
    (t : OperationTask) (actor : Actor) (db : Db)
    → (is_some (first (has_id t.id) db.tasks) || key_taken t.idempotency_key db.tasks) ≡ true
    → enqueue_new t actor db ≡ (err integrity_error, db)
enqueue_new_clash t actor db h =
    bind_err (add_task t) (λ _. note_new t actor) db db integrity_error (add_clash t db h)

enqueue_new_added :
    (t : OperationTask) (actor : Actor) (db : Db)
    → (is_some (first (has_id t.id) db.tasks) || key_taken t.idempotency_key db.tasks) ≡ false
    → enqueue_new t actor db ≡ note_new t actor (record db { tasks = t ∷ db.tasks })
enqueue_new_added t actor db h =
    bind_ok (add_task t) (λ _. note_new t actor) db _ tt (add_fresh t db h)

-- A snapshot that a lookup by this key reads: it may lack the row of the table.
abbrev pub IsStale : (List OperationTask → List OperationTask) → String → Db → Type 0
IsStale view key db =
    (first (has_key key) (view db.tasks) ≡ none)
    ⊎ (first (has_key key) (view db.tasks) ≡ first (has_key key) db.tasks)

module _ (view : List OperationTask → List OperationTask) (actor : Actor) (db : Db) where
  once_found :
      (t r : OperationTask)
      → find_by_key t.idempotency_key (view db.tasks) ≡ some r
      → enqueue_once view t actor db ≡ (ok (answer "ok" r), db)
  unfolding enqueue_once
  once_found t r e = rw (e, enqueue_once) refl

  once_clash :
      (t : OperationTask)
      → find_by_key t.idempotency_key (view db.tasks) ≡ none
      → (is_some (first (has_id t.id) db.tasks) || key_taken t.idempotency_key db.tasks) ≡ true
      → enqueue_once view t actor db ≡ (err integrity_error, db)
  unfolding enqueue_once
  once_clash t e h = rw (e, enqueue_once, enqueue_new_clash t actor db h) refl

  once_added :
      (t : OperationTask)
      → find_by_key t.idempotency_key (view db.tasks) ≡ none
      → (is_some (first (has_id t.id) db.tasks) || key_taken t.idempotency_key db.tasks) ≡ false
      → ((enqueue_once view t actor db).0 ≡ ok (answer "ok" t))
        × ((enqueue_once view t actor db).1.tasks ≡ t ∷ db.tasks)
  unfolding enqueue_once note_new audit event
  once_added t e h = (
    rw (e, enqueue_once, enqueue_new_added t actor db h) refl,
    rw (e, enqueue_once, enqueue_new_added t actor db h) refl,
  )

  again_found :
      (key : Option String) (r : OperationTask)
      → find_by_key key db.tasks ≡ some r
      → enqueue_again key db ≡ (ok (answer "ok" r), db)
  again_found key r e = rw e refl

  -- A task of this key, which is not empty, is in the table, and the type of the new task is
  -- known: whether the snapshot of the first lookup lacks that row or has it, the call answers with
  -- that task and adds nothing, also when its own insert has lost the race.
  pub enqueue_known_key :
      (id task_type key : String) (payload : Fields) (now : DateTime) (d : TaskDefinition)
      (r : OperationTask)
      → find_definition task_type ≡ some d
      → (key == "") ≡ false
      → first (has_key key) db.tasks ≡ some r
      → IsStale view key db
      → enqueue view id task_type payload actor (some key) now db ≡ (ok (answer "ok" r), db)
  unfolding enqueue
  enqueue_known_key id task_type key payload now d r ed ek er (inl missed) =
      let t = new_task id task_type payload actor (some key) d.max_retries now in
      let lost : (is_some (first (has_id id) db.tasks) || is_some (first (has_key key) db.tasks))
          ≡ true =
        ground arith in
      rw (ed, enqueue, once_clash t (rw (ek, missed) refl) lost)
        (again_found (some key) r (rw (ek, er) refl))
  enqueue_known_key id task_type key payload now d r ed ek er (inr seen) =
      let t = new_task id task_type payload actor (some key) d.max_retries now in
      rw (ed, enqueue, once_found t r (rw (ek, seen, er) refl)) refl

-- The rows after an enqueue: the table as it was, or one new pending row in front of it.
pub data Enqueued (ts : List OperationTask) : List OperationTask → Type 0 where
  unchanged : Enqueued ts ts
  added :
      (id task_type : String) (payload : Fields) (actor : Actor) (key : Option String)
      (max_retries : ℕ) (now : DateTime)
      → Enqueued ts (new_task id task_type payload actor key max_retries now ∷ ts)

enqueue_again-Enqueued :
    (key : Option String) (db : Db) → Enqueued db.tasks (enqueue_again key db).1.tasks
enqueue_again-Enqueued key db = elim (Option-cases (find_by_key key db.tasks)) [
  | inl e ↦ rw e unchanged
  | inr (r, e) ↦ rw e unchanged
]

rescued :
    (t : OperationTask) (key : Option String) (db : Db) (out : Result TaskResult × Db)
    → out.0 ≡ ok (answer "ok" t)
    → (rescue key out).1.tasks ≡ out.1.tasks
rescued t key db (ok r, s) good = refl
rescued t key db (err e, s) good = cc

once-Enqueued :
    (view : List OperationTask → List OperationTask) (id task_type : String) (payload : Fields)
    (actor : Actor) (key : Option String) (max_retries : ℕ) (now : DateTime) (db : Db)
    → let t = new_task id task_type payload actor key max_retries now in
      Enqueued db.tasks (rescue key (enqueue_once view t actor db)).1.tasks
unfolding enqueue_once
once-Enqueued view id task_type payload actor key max_retries now db =
    let t = new_task id task_type payload actor key max_retries now in
    elim (Option-cases (find_by_key key (view db.tasks))) [
      | inr (r, e) ↦ rw (once_found view actor db t r e) unchanged
      | inl e ↦ elim (Bool-cases (is_some (first (has_id id) db.tasks) || key_taken key db.tasks)) [
        | inl h ↦ rw (once_clash view actor db t e h) (enqueue_again-Enqueued key db)
        | inr h ↦
            let (good, rows) = once_added view actor db t e h in
            subst (Enqueued db.tasks)
              (sym (rescued t key db (enqueue_once view t actor db) good ∙ rows))
              (added id task_type payload actor key max_retries now)
      ]
    ]

pub enqueue-Enqueued :
    (view : List OperationTask → List OperationTask) (id task_type : String) (payload : Fields)
    (actor : Actor) (key : Option String) (now : DateTime) (db : Db)
    → Enqueued db.tasks (enqueue view id task_type payload actor key now db).1.tasks
unfolding enqueue
enqueue-Enqueued view id task_type payload actor key now db = go (find_definition task_type)
  where
    go :
        (d : Option TaskDefinition)
        → Enqueued db.tasks (enqueue_as d view id task_type payload actor key now db).1.tasks
    go none = unchanged
    go (some d) = once-Enqueued view id task_type payload actor key d.max_retries now db
