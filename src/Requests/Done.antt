-- ===== src/Requests/Done.antt =====
-- A media request that is completed has its full progress and its date.
use sakura_embyboss.Prelude.{
  ℤ, pos, String, Bool, true, false, not, ◌&&◌, ◌||◌, ◌≡◌, refl, sym, subst, inl, inr, Option, none,
  some, ◌==◌, eq_int, eq_string, is_some, All, Bool-cases,
}
use sakura_embyboss.Exec.{Exec, Result, ok, err, settle, bind_ok, bind_err, ◌>>◌}
use sakura_embyboss.Database.{Db, DateTime, Fields, MediaRequest}
use sakura_embyboss.Notifications.{Delivery, Notice, add_notification}
use sakura_embyboss.Notifications.Frame.{noted, add_notification-Notes}
use sakura_embyboss.Requests.{
  dated_completed, dated_canceled, or_now, notify_if, Report, with_report, with_progress,
  with_state, is_transferred, is_failed,
}

abbrev pub is_done : MediaRequest → Bool
is_done r = not (r.status == "completed") || (r.progress == pos 100 && is_some r.completed_at)

abbrev pub IsDone : MediaRequest → Type 0
IsDone r = is_done r ≡ true

abbrev pub IsComplete : Db → Type 0
IsComplete db = All IsDone db.requests

-- The rules of a completed row.
pub or_now_some : (o : Option DateTime) (now : DateTime) → is_some (or_now o now) ≡ true
or_now_some none now = refl
or_now_some (some t) now = refl

or_true : (b : Bool) → (b || true) ≡ true
or_true true = refl
or_true false = refl

pub dated-IsDone :
    (now : DateTime) (r : MediaRequest) → IsDone (dated_canceled now (dated_completed now r))
dated-IsDone now r = elim (Bool-cases (r.status == "completed")) [
  | inl e ↦ rw (e, or_now_some r.completed_at now) (or_true (not (r.status == "completed")))
  | inr e ↦ rw e (rw e refl)
]

with_state-IsDone : (o : Option String) (r : MediaRequest) → IsDone r → IsDone (with_state o r)
with_state-IsDone none r h = h
with_state-IsDone (some s) r h = elim (Bool-cases (s == "downloading")) [
  | inl e ↦ rw e refl
  | inr e ↦ elim (Bool-cases (s == "failed")) [
    | inl f ↦ rw (e, f) refl
    | inr f ↦ elim (Bool-cases (s == "completed")) [
      | inl g ↦ rw (e, f, g) refl
      | inr g ↦ rw (e, f, g) h
    ]
  ]
]

pub with_report-IsDone :
    (p : Report) (now : DateTime) (r : MediaRequest) → IsDone r → IsDone (with_report p now r)
with_report-IsDone p now r h = elim (Bool-cases (is_transferred p.transfer)) [
  | inl e ↦ rw (e, or_now_some r.completed_at now) refl
  | inr e ↦ elim (Bool-cases (is_failed p.transfer)) [
    | inl f ↦ rw (e, f) refl
    | inr f ↦ rw (e, f) (with_state-IsDone p.download r h)
  ]
]

pub with_progress-IsDone : (o : Option ℤ) (r : MediaRequest) → IsDone r → IsDone (with_progress o r)
with_progress-IsDone none r h = h
with_progress-IsDone (some n) r h = elim (Bool-cases (r.status == "completed")) [
  | inl e ↦ rw e h
  | inr e ↦ rw e (rw e refl)
]

-- A run leaves complete requests, whether it raises or not.
abbrev pub Leaves : Db → {A : Type 0} → Result A × Db → Type 0
Leaves db (err e, s) = Unit
Leaves db (ok r, s) = IsComplete s

pub settled :
    {A : Type 0} (db : Db) (out : Result A × Db)
    → IsComplete db
    → Leaves db out
    → IsComplete (settle out.0 db out.1).1
settled db (ok r, s) h k = k
settled db (err e, s) h k = h

-- The end of an update: a message, and the log, which keeps the requests.
module _ (b : Bool) (n : Notice) (d : Delivery) (log : Exec Db (Option Fields))
    (quiet : (s : Db) → (log s).1.requests ≡ s.requests) where
  log-Leaves : (db s : Db) → IsComplete s → Leaves db (log s)
  log-Leaves db s h = go (log s) (quiet s)
    where
      go : (out : Result (Option Fields) × Db) → out.1.requests ≡ s.requests → Leaves db out
      go (err e, t) k = tt
      go (ok r, t) k = subst (All IsDone) (sym k) h

  pub told-Leaves : (db s : Db) → IsComplete s → Leaves db ((notify_if b n d >> log) s)
  told-Leaves db s h = go b
    where
      go : (b : Bool) → Leaves db ((notify_if b n d >> log) s)
      go false = log-Leaves db s h
      go true = elim (add_notification-Notes n d s) [
        | inl (x, t, e) ↦
            subst (Leaves db) (sym (bind_err (add_notification n d) (λ _. log) s t x e)) tt
        | inr (ns, ts, es, e) ↦
            subst (Leaves db)
              (sym (bind_ok (add_notification n d) (λ _. log) s (noted ns ts es s) tt e))
              (log-Leaves db (noted ns ts es s) h)
      ]
