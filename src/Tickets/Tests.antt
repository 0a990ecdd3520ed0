-- ===== src/Tickets/Tests.antt =====
-- An internal note on a ticket.
use sakura_embyboss.Prelude.{pos, none, true, refl, [], ◌∷◌}
use sakura_embyboss.Database.{Db, SupportTicket}
use sakura_embyboss.Notifications.{Delivery}
use sakura_embyboss.Tickets.{NewTicket, new_ticket, Reply, reply}
use sakura_embyboss.Tickets.Internal.{Unmoved, internal_reply_hidden}
use sakura_embyboss.Points.Tests.{admin, db as empty}

abbrev question : NewTicket
question = record {
  tg = pos 7;
  subject = " no sound ";
  category = "general";
  priority = "normal";
  body = "help";
}

abbrev ticket : SupportTicket
ticket = new_ticket question 1000 "ab12cd34" "261126"

abbrev db : Db
db = record empty { tickets = ticket ∷ [] }

abbrev delivery : Delivery
delivery = record { now = 2001; notification_id = "n1"; task_id = "t1" }

abbrev note : Reply
note = record {
  body = "check the codec";
  actor = admin;
  tg_scope = none;
  internal = true;
  now = 2000;
  delivery = delivery;
}

internal_reply_hidden_example : Unmoved "ab12cd34" db (reply "ab12cd34" note db).1
internal_reply_hidden_example = internal_reply_hidden "ab12cd34" note db refl refl
