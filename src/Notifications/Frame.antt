-- ===== src/Notifications/Frame.antt =====
-- `add_notification`: it raises, or it writes notifications, tasks and events and nothing else.
use sakura_embyboss.Prelude.{
  Bool, true, false, not, ◌||◌, ◌≡◌, refl, sym, subst, ◌∙◌, ◌⊎◌, inl, inr, List, ◌∷◌, ◌==◌,
  eq_string, Bool-cases, is_some, first, str_strip,
}
use sakura_embyboss.Exec.{
  Exec, Result, Error, ok, err, integrity_error, runtime_error, bind_ok, bind_err, ◌>>◌,
}
use sakura_embyboss.Database.{Db, UserNotification, OperationTask, SystemEvent}
use sakura_embyboss.Operations.{event}
use sakura_embyboss.Tasks.{add_task, has_id, key_taken}
use sakura_embyboss.Notifications.{
  is_category, is_severity, Delivery, Notice, put_inbox, put_telegram, queued, web_enabled,
  telegram_enabled, deliver, add_notification, telegram_task,
}

abbrev pub noted : List UserNotification → List OperationTask → List SystemEvent → Db → Db
noted ns ts es db = record db { notifications = ns; tasks = ts; events = es }

-- A run that raised.
abbrev pub Failed : {A : Type 0} → Result A × Db → Type 0
Failed out = (x : Error) × (s : Db) × (out ≡ (err x, s))

abbrev pub Noted : Db → Result (Unit {0}) × Db → Type 0
Noted db out =
    (ns : List UserNotification) × (ts : List OperationTask) × (es : List SystemEvent) × (out
      ≡ (ok tt, noted ns ts es db))

abbrev pub Notes : Exec Db (Unit {0}) → Type 0
Notes m = (db : Db) → Failed (m db) ⊎ Noted db (m db)

Notes-then : (m k : Exec Db (Unit {0})) → Notes m → Notes k → Notes (m >> k)
Notes-then m k hm hk db = elim (hm db) [
  | inl (x, s, e) ↦ inl (x, s, bind_err m (λ _. k) db s x e)
  | inr (ns, ts, es, e) ↦ elim (hk (noted ns ts es db)) [
    | inl (x, s, f) ↦ inl (x, s, bind_ok m (λ _. k) db (noted ns ts es db) tt e ∙ f)
    | inr (ns', ts', es', f) ↦
        inr (ns', ts', es', bind_ok m (λ _. k) db (noted ns ts es db) tt e ∙ f)
  ]
]

add_task-Notes : (t : OperationTask) → Notes (add_task t)
unfolding add_task
add_task-Notes t db =
    elim (Bool-cases
      (is_some (first (has_id t.id) db.tasks) || key_taken t.idempotency_key db.tasks)) [
        | inl e ↦ inl (integrity_error, db, rw e refl)
        | inr e ↦ inr (db.notifications, t ∷ db.tasks, db.events, rw e refl)
      ]

put_telegram-Notes : (w t : Bool) (n : Notice) (d : Delivery) → Notes (put_telegram w t n d)
unfolding put_telegram event
put_telegram-Notes w false n d db = inr (db.notifications, db.tasks, db.events, refl)
put_telegram-Notes w true n d db =
    Notes-then (add_task (telegram_task w n d)) (queued n d) (add_task-Notes (telegram_task w n d))
      (λ s. inr (s.notifications, s.tasks, (queued n d s).1.events, refl)) db

put_inbox-Notes : (w : Bool) (n : Notice) (d : Delivery) → Notes (put_inbox w n d)
unfolding put_inbox event
put_inbox-Notes false n d db = inr (db.notifications, db.tasks, db.events, refl)
put_inbox-Notes true n d db = inr (_, db.tasks, _, refl)

deliver-Notes : (n : Notice) (d : Delivery) → Notes (deliver n d)
unfolding deliver
deliver-Notes n d db =
    let w = web_enabled n db in
    let t = telegram_enabled n db in
    Notes-then (put_inbox w n d) (put_telegram w t n d) (put_inbox-Notes w n d)
      (put_telegram-Notes w t n d) db

-- The two outcomes of a notification.
pub add_notification-Notes : (n : Notice) (d : Delivery) → Notes (add_notification n d)
unfolding add_notification
add_notification-Notes n d db = elim (Bool-cases (not (is_category n.category))) [
  | inl e ↦ inl (runtime_error, db, rw e refl)
  | inr e ↦ elim (Bool-cases (not (is_severity n.severity))) [
    | inl f ↦ inl (runtime_error, db, rw (e, f) refl)
    | inr f ↦ elim (Bool-cases (str_strip n.title == "" || str_strip n.body == "")) [
      | inl g ↦ inl (runtime_error, db, rw (e, f, g) refl)
      | inr g ↦
          let open_ : add_notification n d db ≡ deliver n d db = rw (e, f, g) refl in
          subst (λ out. Failed out ⊎ Noted db out) (sym open_) (deliver-Notes n d db)
    ]
  ]
]
