-- ===== src/Tickets/Internal.antt =====
-- Internal notes of a ticket, and what its user sees.
use sakura_embyboss.Prelude.{
  ◌+◌, ℤ, String, true, false, ◌≡◌, refl, sym, subst, ap, inl, inr, Option, none, some, List, ◌∷◌,
  ◌==◌, eq_string, first, replace, first_holds, first-replace_self, Bool-cases, Option-cases,
  str_strip,
}
use text.Mathlib.TextEquality.{eq_iff}
use sakura_embyboss.Exec.{Result, ok, err, settle, transaction, gets, bind_ok, ◌>>=◌}
use sakura_embyboss.Database.{DateTime, Db, Fields, SupportTicket, TicketMessage}
use sakura_embyboss.Operations.{audit, event}
use sakura_embyboss.Tickets.{
  stays_internal, notify_reply, in_order, reply_found, is_ticket, get_ticket, shown, select,
  ticket_messages, Reply, replied, reply, write_reply, log_reply, actor_number, sender_kind,
}

-- The status of a ticket, with its dates of solution and closing.
abbrev pub state_of : Option SupportTicket → Option (String × Option DateTime × Option DateTime)
state_of none = none
state_of (some t) = some (t.status, t.resolved_at, t.closed_at)

-- What an internal note leaves of the ticket for its user.
pub record Unmoved (id : String) (before after : Db) : Type 0 where
  pub messages :
      (k : String)
      → ticket_messages k false after.messages ≡ ticket_messages k false before.messages
  pub notifications : after.notifications ≡ before.notifications
  pub status : state_of (get_ticket id none after) ≡ state_of (get_ticket id none before)

module _ (id : String) (db : Db) where
  still : Unmoved id db db
  still = record { messages = λ k. refl; notifications = refl; status = refl }

  select_internal :
      (k : String) (m : TicketMessage) (ms : List TicketMessage)
      → m.internal ≡ true
      → select (shown k false) (m ∷ ms) ≡ select (shown k false) ms
  unfolding select
  select_internal k m ms h = elim (Bool-cases (m.ticket_id == k)) [
    | inl e ↦ rw (e, h) refl
    | inr e ↦ rw e refl
  ]

  settled :
      (out : Result (Option Fields) × Db)
      → Unmoved id db out.1
      → Unmoved id db (settle out.0 db out.1).1
  settled (ok r, s) h = h
  settled (err e, s) h = still

  -- The ticket that a note leaves.
  abbrev with_note : Reply → SupportTicket → SupportTicket
  with_note r t = record t {
    last_reply_kind = sender_kind r;
    last_reply_at = r.now;
    updated_at = r.now;
  }

  abbrev note_of : Reply → SupportTicket → TicketMessage
  note_of r t = record {
    id = db.next_message;
    ticket_id = t.id;
    sender_kind = sender_kind r;
    sender_tg = actor_number r.actor;
    body = str_strip r.body;
    internal = stays_internal r;
    created_at = r.now;
  }

  abbrev after_note : Reply → SupportTicket → Db
  after_note r t = record db {
    messages = note_of r t ∷ db.messages;
    next_message = db.next_message + 1;
    tickets = replace (is_ticket t.id) (with_note r t) db.tickets;
  }

  module _ (r : Reply) (t : SupportTicket) (internal : r.internal ≡ true)
      (admin : r.tg_scope ≡ none) (found : get_ticket id none db ≡ some t) where
    writes : write_reply r t db ≡ log_reply r (with_note r t) (after_note r t)
    unfolding write_reply log_reply
    writes =
        let kept : replied r t ≡ with_note r t = rw internal refl in
        let silent : notify_reply r (with_note r t) (after_note r t) ≡ (ok tt, after_note r t) =
          rw (admin, internal) refl in
        rw kept (
          bind_ok (notify_reply r (with_note r t)) (λ _. log_reply r (with_note r t))
            (after_note r t) (after_note r t) tt silent)

    noted : Unmoved id db (write_reply r t db).1
    unfolding log_reply audit event ticket_messages
    noted =
        subst (λ out. Unmoved id db out.1) (sym writes)
          (record {
            messages = λ k.
                ap in_order
                  (select_internal k (note_of r t) db.messages (rw (internal, admin) refl));
            notifications = refl;
            status =
                let here : t.id ≡ id =
                  (eq_iff t.id id).0 (first_holds (is_ticket id) db.tickets found) in
                let there : first (is_ticket id) (after_note r t).tickets ≡ some (with_note r t) =
                  subst (λ k. first (is_ticket k) (after_note r t).tickets ≡ some (with_note r t))
                    here
                    (first-replace_self (is_ticket t.id) (with_note r t) db.tickets
                      ((eq_iff t.id t.id).1 refl)
                      (subst (λ k. first (is_ticket k) db.tickets ≡ some t) (sym here) found)) in
                rw (there, found) refl;
          })

-- A reply of an administrator that is marked as internal, accepted or not, changes neither the
-- messages that the user of any ticket sees, nor the notifications, nor the status of the ticket and
-- its dates of solution and closing.
pub internal_reply_hidden :
    (id : String) (r : Reply) (db : Db)
    → r.tg_scope ≡ none
    → r.internal ≡ true
    → Unmoved id db (reply id r db).1
unfolding reply
internal_reply_hidden id r db admin internal = go r.tg_scope admin
  where
    go :
        (scope : Option ℤ)
        → scope ≡ none
        → Unmoved id db (transaction (gets (get_ticket id scope) >>= reply_found r) db).1
    go (some tg) h = cc
    go none h = elim (Option-cases (get_ticket id none db)) [
      | inl e ↦ rw e (still id db)
      | inr (t, e) ↦ elim (Bool-cases (t.status == "closed")) [
        | inl f ↦ rw (e, f) (still id db)
        | inr f ↦ rw (e, f) (settled id db (write_reply r t db) (noted id db r t internal admin e))
      ]
    ]
