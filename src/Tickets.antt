-- ===== src/Tickets.antt =====
-- `TicketService` of application/commerce_service.py. `now` is the clock reading of a call, `id` its
-- fresh `uuid4()`, and `stamp` the text of `now.strftime('%y%m%d')`.
mod Tests
pub mod Internal
use sakura_embyboss.Prelude.{
  ℕ, ℤ, ltb, leb, String, Bool, true, false, not, ◌&&◌, ◌||◌, Option, none, some, List, [], ◌∷◌,
  ◌++◌, ◌+◌, ◌==◌, eq_int, eq_string, if◌then◌else◌, first, replace, is_some, str_append, str_int,
  str_take, str_strip, str_is_digit, int_str, hex_upper, map,
}
use sakura_embyboss.Exec.{
  Exec, pure, raise, gets, modify, transaction, runtime_error, integrity_error, ◌>>=◌, ◌>>◌,
}
use sakura_embyboss.Database.{
  Db, DateTime, Value, null, flag, num, text, time, Fields, Actor, SupportTicket, TicketMessage,
}
use sakura_embyboss.Operations.{audit, event}
use sakura_embyboss.Codes.{text_value, int_value, date_value}
use sakura_embyboss.Notifications.{Delivery, Notice, add_notification}

abbrev pub is_ticket : String → SupportTicket → Bool
is_ticket id t = t.id == id

-- The filter on the owner, which an administrator leaves out.
abbrev pub in_scope : Option ℤ → SupportTicket → Bool
in_scope none t = true
in_scope (some tg) t = t.tg == tg

-- `CommerceRepository.get_ticket`
abbrev pub get_ticket : String → Option ℤ → Db → Option SupportTicket
get_ticket id scope db = first (λ t. in_scope scope t && is_ticket id t) db.tickets

abbrev pub save_ticket : SupportTicket → Exec Db (Unit {0})
save_ticket t = modify (λ (s : Db). record s { tickets = replace (is_ticket t.id) t s.tickets })

-- `add_ticket_message`
abbrev pub add_ticket_message :
    String → String → Option ℤ → String → Bool → DateTime → Exec Db (Unit {0})
add_ticket_message ticket_id sender_kind sender_tg body internal now = modify (λ (s : Db).
    record s {
      messages =
          record {
            id = s.next_message;
            ticket_id = ticket_id;
            sender_kind = sender_kind;
            sender_tg = sender_tg;
            body = body;
            internal = internal;
            created_at = now;
          }
          ∷ s.messages;
      next_message = s.next_message + 1;
    })

unfoldable pub serialize_ticket : SupportTicket → Fields
serialize_ticket row =
    ("id", text row.id)
    ∷ ("ticket_no", text row.ticket_no)
    ∷ ("tg", num row.tg)
    ∷ ("subject", text row.subject)
    ∷ ("category", text row.category)
    ∷ ("priority", text row.priority)
    ∷ ("status", text row.status)
    ∷ ("assignee_tg", int_value row.assignee_tg)
    ∷ ("last_reply_kind", text row.last_reply_kind)
    ∷ ("last_reply_at", time row.last_reply_at)
    ∷ ("resolved_at", date_value row.resolved_at)
    ∷ ("closed_at", date_value row.closed_at)
    ∷ ("created_at", time row.created_at)
    ∷ ("updated_at", time row.updated_at)
    ∷ []

abbrev pub has_ticket_no : String → SupportTicket → Bool
has_ticket_no n t = t.ticket_no == n

-- `add_ticket` at the flush, which checks the primary key and the number.
unfoldable pub add_ticket : SupportTicket → Exec Db (Unit {0})
add_ticket t db =
    if is_some (first (is_ticket t.id) db.tickets)
      || is_some (first (has_ticket_no t.ticket_no) db.tickets)
    then raise integrity_error db
    else modify (λ (s : Db). record s { tickets = t ∷ s.tickets }) db

-- The arguments of `create`.
pub record NewTicket : Type 0 where
  pub tg : ℤ
  pub subject : String
  pub category : String
  pub priority : String
  pub body : String

abbrev pub ticket_no_of : String → String → String
ticket_no_of stamp id = str_append "TK" (str_append stamp (hex_upper (str_take 6 id)))

abbrev pub new_ticket : NewTicket → DateTime → String → String → SupportTicket
new_ticket a now id stamp = record {
  id = id;
  ticket_no = ticket_no_of stamp id;
  tg = a.tg;
  subject = str_strip a.subject;
  category = a.category;
  priority = a.priority;
  status = "open";
  assignee_tg = none;
  last_reply_kind = "user";
  last_reply_at = now;
  resolved_at = none;
  closed_at = none;
  created_at = now;
  updated_at = now;
}

-- `create`
unfoldable pub create : NewTicket → Actor → DateTime → String → String → Exec Db Fields
unfolding audit event add_ticket
create a actor now id stamp = transaction do
  let row = new_ticket a now id stamp
  add_ticket row
  add_ticket_message id "user" (some a.tg) (str_strip a.body) false now
  audit actor "ticket.create" "ticket" (some id) "success"
      (some (("ticket_no", text row.ticket_no) ∷ []))
  event "ticket.created" "user" (some (str_int a.tg)) (
      ("resource_type", text "ticket")
      ∷ ("resource_id", text id)
      ∷ ("tg", num a.tg)
      ∷ ("ticket_no", text row.ticket_no)
      ∷ [])
  pure (serialize_ticket row)

abbrev pub shown : String → Bool → TicketMessage → Bool
shown ticket_id include_internal m =
    m.ticket_id == ticket_id && (include_internal || not m.internal)

-- The messages of a query, newest first.
unfoldable pub select : (TicketMessage → Bool) → List TicketMessage → List TicketMessage
select p [] = []
select p (m ∷ ms) = let rest = select p ms in if p m then m ∷ rest else rest

-- `m` comes before `n` by `created_at`, then by `id`.
abbrev pub sooner : TicketMessage → TicketMessage → Bool
sooner m n = ltb m.created_at n.created_at || (leb m.created_at n.created_at && ltb m.id n.id)

unfoldable pub insert_message : TicketMessage → List TicketMessage → List TicketMessage
insert_message m [] = m ∷ []
insert_message m (n ∷ ns) =
    let rest = insert_message m ns in if sooner n m then n ∷ rest else m ∷ n ∷ ns

-- `order_by(created_at, id)`
unfoldable pub in_order : List TicketMessage → List TicketMessage
unfolding insert_message
in_order [] = []
in_order (m ∷ ms) = insert_message m (in_order ms)

-- `CommerceRepository.ticket_messages`
unfoldable pub ticket_messages : String → Bool → List TicketMessage → List TicketMessage
unfolding select in_order
ticket_messages ticket_id include_internal ms =
    in_order (select (shown ticket_id include_internal) ms)

-- The dict of `serialize_message` holds the columns of the message.
abbrev pub detail_of : Bool → Option SupportTicket → Db → Option (Fields × List TicketMessage)
detail_of include_internal none db = none
detail_of include_internal (some t) db =
    some (serialize_ticket t, ticket_messages t.id include_internal db.messages)

-- `detail`
unfoldable pub detail : String → Option ℤ → Bool → Db → Option (Fields × List TicketMessage)
unfolding ticket_messages
detail ticket_id tg include_internal db = detail_of include_internal (get_ticket ticket_id tg db) db

-- The arguments of `reply`.
pub record Reply : Type 0 where
  pub body : String
  pub actor : Actor
  pub tg_scope : Option ℤ
  pub internal : Bool
  pub now : DateTime
  pub delivery : Delivery

-- `internal and not is_user`
abbrev pub stays_internal : Reply → Bool
stays_internal r = r.internal && not (is_some r.tg_scope)

abbrev pub sender_kind : Reply → String
sender_kind r = if is_some r.tg_scope then "user" else "admin"

-- `int(actor.identifier) if actor.identifier.isdigit() else None`
abbrev pub actor_number : Actor → Option ℤ
actor_number actor = if str_is_digit actor.identifier then some (int_str actor.identifier) else none

-- An internal note does not move the ticket.
abbrev pub replied : Reply → SupportTicket → SupportTicket
replied r t =
    let u = record t {
      last_reply_kind = sender_kind r;
      last_reply_at = r.now;
      updated_at = r.now;
    } in
    if r.internal then u else record u {
      status = if is_some r.tg_scope then "pending_staff" else "pending_user";
      resolved_at = none;
    }

abbrev pub reply_notice : SupportTicket → String → Notice
reply_notice t body = record {
  tg = t.tg;
  category = "ticket";
  title = str_append "工单 " (str_append t.ticket_no " 收到回复");
  body = str_strip body;
  severity = "info";
  action_url = some "/tickets";
  metadata = some (("ticket_id", text t.id) ∷ []);
}

-- The user is told of an answer that is not internal.
abbrev pub notify_reply : Reply → SupportTicket → Exec Db (Unit {0})
notify_reply r t =
    if not (is_some r.tg_scope) && not r.internal
    then add_notification (reply_notice t r.body) r.delivery
    else pure tt

abbrev pub ticket_event : SupportTicket → Fields → Exec Db (Unit {0})
ticket_event t more =
    event "ticket.updated" "user" (some (str_int t.tg))
      (("resource_type", text "ticket") ∷ ("resource_id", text t.id) ∷ ("tg", num t.tg) ∷ more)

unfoldable pub log_reply : Reply → SupportTicket → Exec Db (Option Fields)
unfolding audit event
log_reply r row = do
  audit r.actor "ticket.reply" "ticket" (some row.id) "success"
      (some (("internal", flag (stays_internal r)) ∷ []))
  ticket_event row (("status", text row.status) ∷ [])
  pure (some (serialize_ticket row))

unfoldable pub write_reply : Reply → SupportTicket → Exec Db (Option Fields)
unfolding log_reply
write_reply r t = do
  add_ticket_message t.id (sender_kind r) (actor_number r.actor) (str_strip r.body)
      (stays_internal r) r.now
  save_ticket (replied r t)
  notify_reply r (replied r t)
  log_reply r (replied r t)

abbrev pub reply_found : Reply → Option SupportTicket → Exec Db (Option Fields)
reply_found r none = pure none
reply_found r (some t) = if t.status == "closed" then raise runtime_error else write_reply r t

-- `reply`
unfoldable pub reply : String → Reply → Exec Db (Option Fields)
unfolding write_reply
reply ticket_id r = transaction (gets (get_ticket ticket_id r.tg_scope) >>= reply_found r)

-- The arguments of `update`; `assignee` is none if `assignee_supplied` is false.
pub record TicketUpdate : Type 0 where
  pub status : Option String
  pub priority : Option String
  pub assignee : Option (Option ℤ)
  pub actor : Actor
  pub now : DateTime

abbrev pub set_status : Option String → DateTime → SupportTicket → SupportTicket
set_status none now t = t
set_status (some s) now t = record t {
  status = s;
  resolved_at = if s == "resolved" then some now else none;
  closed_at = if s == "closed" then some now else none;
}

abbrev pub set_priority : Option String → SupportTicket → SupportTicket
set_priority none t = t
set_priority (some p) t = record t { priority = p }

abbrev pub set_assignee : Option (Option ℤ) → SupportTicket → SupportTicket
set_assignee none t = t
set_assignee (some a) t = record t { assignee_tg = a }

abbrev pub text_change : String → Option String → Fields → Fields
text_change key none rest = rest
text_change key (some s) rest = (key, text s) ∷ rest

abbrev pub assignee_change : Option (Option ℤ) → Fields
assignee_change none = []
assignee_change (some a) = ("assignee_tg", int_value a) ∷ []

abbrev pub changes_of : TicketUpdate → Fields
changes_of u =
    text_change "status" u.status (text_change "priority" u.priority (assignee_change u.assignee))

abbrev pub updated : TicketUpdate → SupportTicket → SupportTicket
updated u t =
    record (set_assignee u.assignee (set_priority u.priority (set_status u.status u.now t))) {
      updated_at = u.now;
    }

unfoldable pub write_update : TicketUpdate → SupportTicket → Exec Db (Option Fields)
unfolding audit event
write_update u t = do
  save_ticket (updated u t)
  audit u.actor "ticket.update" "ticket" (some t.id) "success" (some (changes_of u))
  ticket_event (updated u t) (changes_of u)
  pure (some (serialize_ticket (updated u t)))

abbrev pub update_found : TicketUpdate → Option SupportTicket → Exec Db (Option Fields)
update_found u none = pure none
update_found u (some t) = write_update u t

-- `update`
unfoldable pub update : String → TicketUpdate → Exec Db (Option Fields)
unfolding write_update
update ticket_id u = transaction (gets (get_ticket ticket_id none) >>= update_found u)
