-- ===== src/Requests/Sync.antt =====
-- `sync_download` of application/commerce_service.py: a report that is delivered twice.
use sakura_embyboss.Prelude.{
  first-replace_both, first_holds, ◌⊎◌, ℤ, pos, String, Bool, true, false, not, ◌&&◌, ◌≡◌, refl,
  sym, subst, ◌∙◌, ap, inl, inr, Option, none, some, ◌==◌, eq_int, eq_string, first, replace,
  Bool-cases, arith, ==_refl, int_eq_iff,
}
use package.text.Mathlib.TextEquality.{eq_iff}
use sakura_embyboss.Exec.{◌>>◌, Error, bind_ok, bind_err, ok_inj, Result, ok, err}
use sakura_embyboss.Database.{Db, DateTime, Fields, MediaRequest}
use sakura_embyboss.Notifications.{add_notification, Delivery}
use sakura_embyboss.Requests.{
  log_sync, notify_if, sync_notice, is_request, get_request, by_download_id, has_download,
  serialize_media_request, or_now, Report, synced, with_report, with_progress, with_state,
  is_transferred, is_failed, is_same, same_date, clamp, write_sync, sync_download,
}
use sakura_embyboss.Operations.{event}
use sakura_embyboss.Notifications.Frame.{noted, Failed, add_notification-Notes}

-- The row as it is saved.
abbrev saved : DateTime → MediaRequest → MediaRequest
saved t r = record r { updated_at = t }

or_now_twice :
    (o : Option DateTime) (now now' : DateTime) → or_now (or_now o now) now' ≡ or_now o now
or_now_twice none now now' = refl
or_now_twice (some t) now now' = refl

progress_twice :
    (q : Option ℤ) (r : MediaRequest) (t : DateTime)
    → with_progress q (saved t (with_progress q r)) ≡ saved t (with_progress q r)
progress_twice none r t = refl
progress_twice (some n) r t = elim (Bool-cases (r.status == "completed")) [
  | inl e ↦ rw e (rw e refl)
  | inr e ↦ rw e (rw e refl)
]

-- A status that the report sets, other than "completed".
set_twice :
    (q : Option ℤ) (v : String) (r : MediaRequest) (t : DateTime)
    → (v == "completed") ≡ false
    → with_progress q (record (saved t (with_progress q (record r { status = v }))) { status = v })
      ≡ saved t (with_progress q (record r { status = v }))
set_twice none v r t h = refl
set_twice (some n) v r t h = rw h refl

state_twice :
    (q : Option ℤ) (s : Option String) (r : MediaRequest) (t : DateTime)
    → with_progress q (with_state s (saved t (with_progress q (with_state s r))))
      ≡ saved t (with_progress q (with_state s r))
state_twice q none r t = progress_twice q r t
state_twice q (some s) r t = elim (Bool-cases (s == "downloading")) [
  | inl e ↦ rw e (set_twice q "downloading" r t refl)
  | inr e ↦ elim (Bool-cases (s == "failed")) [
    | inl f ↦ rw (e, f) (set_twice q "rejected" r t refl)
    | inr f ↦ elim (Bool-cases (s == "completed")) [
      | inl g ↦ rw (e, f, g) (set_twice q "downloading" r t refl)
      | inr g ↦ rw (e, f, g) (progress_twice q r t)
    ]
  ]
]

completed_progress :
    (q : Option ℤ) (r : MediaRequest) → r.status ≡ "completed" → with_progress q r ≡ r
completed_progress none r h = refl
completed_progress (some n) r h = rw ((eq_iff r.status "completed").1 h) refl

-- The row after a report takes the same report without a change.
synced_twice :
    (p : Report) (now now' t : DateTime) (r : MediaRequest)
    → synced p now' (saved t (synced p now r)) ≡ saved t (synced p now r)
synced_twice p now now' t r = elim (Bool-cases (is_transferred p.transfer)) [
  | inl e ↦
      let done = record r {
        status = "completed";
        progress = pos 100;
        completed_at = or_now r.completed_at now;
      } in
      let once : synced p now r ≡ done = rw e (completed_progress p.progress done refl) in
      rw once (
        rw (e, or_now_twice r.completed_at now now')
          (completed_progress p.progress (saved t done) refl))
  | inr e ↦ elim (Bool-cases (is_failed p.transfer)) [
    | inl f ↦ rw (e, f) (set_twice p.progress "rejected" r t refl)
    | inr f ↦ rw (e, f) (state_twice p.progress p.download r t)
  ]
]

same_date_refl : (o : Option DateTime) → same_date o o ≡ true
same_date_refl none = refl
same_date_refl (some a) = ground arith

is_same_refl : (r : MediaRequest) → is_same r r ≡ true
is_same_refl r = rw (==_refl r.status, ==_refl r.progress, same_date_refl r.completed_at) refl

-- A report changes nothing but the status, the progress and the date of completion.
abbrev moved : MediaRequest → MediaRequest → MediaRequest
moved r s = record r { status = s.status; progress = s.progress; completed_at = s.completed_at }

progress_moved :
    (q : Option ℤ) (r s : MediaRequest)
    → moved r s ≡ s
    → moved r (with_progress q s) ≡ with_progress q s
progress_moved none r s h = h
progress_moved (some n) r s h = elim (Bool-cases (s.status == "completed")) [
  | inl e ↦ rw e h
  | inr e ↦ rw e (ap (λ (x : MediaRequest). record x { progress = clamp n }) h)
]

state_moved : (o : Option String) (r : MediaRequest) → moved r (with_state o r) ≡ with_state o r
state_moved none r = refl
state_moved (some s) r = elim (Bool-cases (s == "downloading")) [
  | inl e ↦ rw e refl
  | inr e ↦ elim (Bool-cases (s == "failed")) [
    | inl f ↦ rw (e, f) refl
    | inr f ↦ elim (Bool-cases (s == "completed")) [
      | inl g ↦ rw (e, f, g) refl
      | inr g ↦ rw (e, f, g) refl
    ]
  ]
]

report_moved :
    (p : Report) (now : DateTime) (r : MediaRequest)
    → moved r (with_report p now r) ≡ with_report p now r
report_moved p now r = elim (Bool-cases (is_transferred p.transfer)) [
  | inl e ↦ rw e refl
  | inr e ↦ elim (Bool-cases (is_failed p.transfer)) [
    | inl f ↦ rw (e, f) refl
    | inr f ↦ rw (e, f) (state_moved p.download r)
  ]
]

synced_moved :
    (p : Report) (now : DateTime) (r : MediaRequest) → moved r (synced p now r) ≡ synced p now r
synced_moved p now r = progress_moved p.progress r (with_report p now r) (report_moved p now r)

same_date_eq : (a b : Option DateTime) → same_date a b ≡ true → a ≡ b
same_date_eq none none h = refl
same_date_eq (some a) (some b) h = ground arith
same_date_eq none (some b) h = cc
same_date_eq (some a) none h = cc

and_parts : (a b c : Bool) → (a && b && c) ≡ true → (a ≡ true) × (b ≡ true) × (c ≡ true)
and_parts true true true h = (refl, refl, refl)
and_parts false b c h = cc
and_parts true false c h = cc
and_parts true true false h = cc

-- A row that compares as the same is the same.
is_same_eq :
    (p : Report) (now : DateTime) (r : MediaRequest)
    → is_same r (synced p now r) ≡ true
    → synced p now r ≡ r
is_same_eq p now r h =
    let s = synced p now r in
    let (a, b, c) =
      and_parts (r.status == s.status) (r.progress == s.progress)
        (same_date r.completed_at s.completed_at) h in
    sym (synced_moved p now r)
    ∙ rw
        (
          ← ((eq_iff r.status s.status).0 a),
          ← ((int_eq_iff r.progress s.progress).0 b),
          ← (same_date_eq r.completed_at s.completed_at c),
        )
        refl

-- A row that the report does not change is answered as it is.
settled_sync :
    (id : String) (p : Report) (now later : DateTime) (d : Delivery) (db : Db) (x : MediaRequest)
    → by_download_id id db ≡ some x
    → synced p now x ≡ x
    → sync_download id p now later d db ≡ (ok (some (serialize_media_request x)), db)
unfolding sync_download
settled_sync id p now later d db x found same = rw (found, same, is_same_refl x) refl

-- The outcomes of the writes of a report.
abbrev Written : MediaRequest → Db → Result (Option Fields) × Db → Type 0
Written new db out =
    (s : Db) × (out ≡ (ok (some (serialize_media_request new)), s))
    × (s.requests ≡ replace (is_request new.id) new db.requests)

write_sync_cases :
    (r r' : MediaRequest) (later : DateTime) (d : Delivery) (db : Db)
    → Failed (write_sync r r' later d db) ⊎ Written (saved later r') db (write_sync r r' later d db)
unfolding write_sync log_sync event
write_sync_cases r r' later d db = go (not (r'.status == r.status))
  where
    new : MediaRequest
    new = saved later r'

    start : Db
    start = record db { requests = replace (is_request new.id) new db.requests }

    go :
        (b : Bool)
        → Failed ((notify_if b (sync_notice r') d >> log_sync new) start)
          ⊎ Written new db ((notify_if b (sync_notice r') d >> log_sync new) start)
    go false = inr ((log_sync new start).1, refl, refl)
    go true = elim (add_notification-Notes (sync_notice r') d start) [
      | inl (x, t, e) ↦
          inl (x, t, bind_err (add_notification (sync_notice r') d) (λ _. log_sync new) start t x e)
      | inr (ns, ts, es, e) ↦ inr (
        (log_sync new (noted ns ts es start)).1,
        bind_ok (add_notification (sync_notice r') d) (λ _. log_sync new) start
            (noted ns ts es start) tt e,
        refl,
      )
    ]

-- A second delivery of the same report, at any later time, gives the same answer and changes nothing
-- (the row that bears the download being the one under its id, as the primary key has it).
pub sync_twice :
    (id : String) (p : Report) (now now' later later' : DateTime) (d d' : Delivery) (db : Db)
    (row : MediaRequest) (r : Option Fields)
    → by_download_id id db ≡ some row
    → get_request row.id none db ≡ some row
    → (sync_download id p now later d db).0 ≡ ok r
    → sync_download id p now' later' d' (sync_download id p now later d db).1
      ≡ (ok r, (sync_download id p now later d db).1)
unfolding sync_download
sync_twice id p now now' later later' d d' db row r found keyed h =
    elim (Bool-cases (is_same row (synced p now row))) [
      | inl e ↦
          let same : synced p now row ≡ row = is_same_eq p now row e in
          go (sync_download id p now later d db) h
            (inl (settled_sync id p now later d db row found same, again same))
      | inr e ↦ elim (write_sync_cases row (synced p now row) later d db) [
        | inl (x, t, f) ↦ absurd (raised x t (rw (found, e, f) refl))
        | inr (s, f, rows) ↦
            go (sync_download id p now later d db) h (inr (s, rw (found, e, f) refl, rows))
      ]
    ]
  where
    raised : (x : Error) (t : Db) → sync_download id p now later d db ≡ (err x, db) → ⊥
    raised x t e = cc (ap (λ out. out.0) e, h)

    again : synced p now row ≡ row → synced p now' row ≡ row
    again same =
        subst (λ y. synced p now' (saved row.updated_at y) ≡ saved row.updated_at y) same
          (synced_twice p now now' row.updated_at row)

    kept : (synced p now row).id ≡ row.id
    kept = ap (λ (x : MediaRequest). x.id) (sym (synced_moved p now row))

    bears : has_download id (saved later (synced p now row)) ≡ true
    bears =
        subst (λ (x : MediaRequest). has_download id (saved later x) ≡ true)
          (synced_moved p now row) (first_holds (has_download id) db.requests found)

    go :
        (out : Result (Option Fields) × Db)
        → out.0 ≡ ok r
        → ((out ≡ (ok (some (serialize_media_request row)), db)) × (synced p now' row ≡ row))
          ⊎ ((s : Db) × (out
                ≡ (ok (some (serialize_media_request (saved later (synced p now row)))), s))
              × (s.requests
                  ≡ replace
                      (is_request (synced p now row).id)
                      (saved later (synced p now row))
                      db.requests))
        → sync_download id p now' later' d' out.1 ≡ (ok r, out.1)
    go out k (inl (e, same)) =
        let answer : some (serialize_media_request row) ≡ r = ok_inj (sym (ap (λ o. o.0) e) ∙ k) in
        rw (e, ← answer) (settled_sync id p now' later' d' db row found same)
    go out k (inr (s, e, rows)) =
        let new = saved later (synced p now row) in
        let answer : some (serialize_media_request new) ≡ r = ok_inj (sym (ap (λ o. o.0) e) ∙ k) in
        let there : by_download_id id s ≡ some new =
          ap (first (has_download id)) rows
          ∙ first-replace_both (has_download id) (is_request (synced p now row).id) new db.requests
              bears found
              (subst (λ k. first (is_request k) db.requests ≡ some row) (sym kept) keyed) in
        rw (e, ← answer)
          (settled_sync id p now' later' d' s new there (synced_twice p now now' later row))
