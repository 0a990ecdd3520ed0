-- ===== src/RedEnvelope/Send.antt =====
-- `send_red_envelope` and `verify_red_envelope_sender` of modules/extra/red_envelope.py. A replied
-- message has a sender, who is a person, a bot or a channel.
use sakura_embyboss.Prelude.{
  ℕ, ℤ, pos, ◌-ℤ◌, leb_ℤ, String, Bool, not, ◌&&◌, ◌||◌, Option, none, some, List, ◌==◌, eq_int,
  eq_string, if◌then◌else◌, parse_int,
}
use sakura_embyboss.Database.{Emby}
use sakura_embyboss.RedEnvelope.{
  EnvelopeType, random, equal, Group, item, sql_get_emby, sql_update_emby, NewEnvelope, create_reds,
}

-- `msg.from_user`, or `msg.sender_chat` with whether it is the group itself.
pub data Sender : Type 0 where
  from_user : ℤ → String → Sender
  sender_chat : ℤ → Bool → Sender

pub record Target : Type 0 where
  pub tg : ℤ
  pub is_bot : Bool
  pub is_chat : Bool

-- A command: `msg.command`, the message replied to, the title of the group, and what the call draws.
pub record Command : Type 0 where
  pub sender : Sender
  pub title : String
  pub reply_to : Option Target
  pub words : List String
  pub red_id : String
  pub red_bag : String
  pub stored : Bool

-- The settings `red_envelope.status` and `red_envelope.allow_private`.
pub record Settings : Type 0 where
  pub status : Bool
  pub allow_private : Bool

-- What a command comes to: `refused` is a check of the sender, `failed` an exception.
pub data Sent : Type 0 where
  closed : Sent
  private_closed : Sent
  no_target : Sent
  usage : Sent
  refused : Sent
  failed : Sent
  sent : Sent

-- The answer of `verify_red_envelope_sender`.
pub data Verified : Type 0 where
  fails : Verified
  denied : Verified
  verified : String → Verified

-- The checks on a user whose row has the balance `iv`, with the check of the kind.
abbrev pub may_send : ℤ → ℤ → Bool → Bool
may_send iv money extra = leb_ℤ money iv && leb_ℤ (pos 5) money && leb_ℤ (pos 5) iv && extra

unfoldable pub verify_balance : ℤ → String → ℤ → Bool → Bool → Option ℤ → Group → Verified × Group
unfolding sql_update_emby
verify_balance tg name money extra stored none g = (fails, g)
verify_balance tg name money extra stored (some iv) g =
    let charged = sql_update_emby stored tg (iv -ℤ money) g in
    if may_send iv money extra then (verified name, charged) else (denied, g)

unfoldable pub verify_user : ℤ → String → ℤ → Bool → Bool → Option Emby → Group → Verified × Group
unfolding verify_balance
verify_user tg name money extra stored none g = (denied, g)
verify_user tg name money extra stored (some u) g = verify_balance tg name money extra stored u.iv g

-- The check of the kind: a private envelope is not for its sender, another one has a coin for each.
unfoldable pub extra_check : Option Target → ℤ → ℤ → ℤ → Bool
extra_check none tg money members = leb_ℤ members money
extra_check (some t) tg money members = not (t.tg == tg)

-- `verify_red_envelope_sender`; a reply stands for `is_private`.
unfoldable pub verify_red_envelope_sender :
    (String → ℤ → Bool) → Sender → String → Option Target → ℤ → ℤ → Bool → Group → Verified × Group
unfolding verify_user extra_check sql_get_emby
verify_red_envelope_sender matches (from_user tg name) title reply money members stored g =
    verify_user tg name money (extra_check reply tg money members) stored
      (sql_get_emby matches tg g.users) g
verify_red_envelope_sender matches (sender_chat id own) title reply money members stored g =
    if own && not (title == "") then (verified title, g) else (denied, g)

abbrev pub sender_id : Sender → ℤ
sender_id (from_user tg name) = tg
sender_id (sender_chat id own) = id

abbrev pub type_of : Option String → EnvelopeType
type_of none = random
type_of (some w) = if w == "1" then random else equal

-- `int(msg.command[n])`; None is the `IndexError` or the `ValueError`.
unfoldable pub int_item : ℕ → List String → Option ℤ
int_item n words = go (item n words)
  where
    go : Option String → Option ℤ
    go none = none
    go (some w) = parse_int w

-- The command after the check of its sender.
unfoldable pub send_if : Verified × Group → (String → NewEnvelope) → Command → Sent × Group
unfolding create_reds
send_if (fails, g) make c = (failed, g)
send_if (denied, g) make c = (refused, g)
send_if (verified name, g) make c = (sent, create_reds (make name) c.red_id c.red_bag g)

unfoldable pub private_text : Command → String
private_text c = go (item 2 c.words)
  where
    go : Option String → String
    go none = c.red_bag
    go (some w) = w

abbrev pub private_envelope : Command → ℤ → ℤ → String → NewEnvelope
private_envelope c money tg name = record {
  money = money;
  members = pos 1;
  first_name = name;
  sender_id = sender_id c.sender;
  envelope_type = random;
  target = some tg;
  text = some (private_text c);
}

abbrev pub common_envelope : Command → ℤ → ℤ → String → NewEnvelope
common_envelope c money members name = record {
  money = money;
  members = members;
  first_name = name;
  sender_id = sender_id c.sender;
  envelope_type = type_of (item 3 c.words);
  target = none;
  text = item 4 c.words;
}

unfoldable pub send_to : (String → ℤ → Bool) → Command → Target → Option ℤ → Group → Sent × Group
unfolding send_if verify_red_envelope_sender
send_to matches c t none g = (usage, g)
send_to matches c t (some money) g =
    send_if (verify_red_envelope_sender matches c.sender c.title (some t) money (pos 1) c.stored g)
      (private_envelope c money t.tg) c

unfoldable pub send_private : (String → ℤ → Bool) → Command → Target → Group → Sent × Group
unfolding send_to int_item
send_private matches c t g =
    if t.is_bot || t.is_chat then (no_target, g) else send_to matches c t (int_item 1 c.words) g

unfoldable pub send_common :
    (String → ℤ → Bool) → Command → Option ℤ → Option ℤ → Group → Sent × Group
unfolding send_if verify_red_envelope_sender
send_common matches c none members g = (usage, g)
send_common matches c (some money) none g = (usage, g)
send_common matches c (some money) (some members) g =
    send_if (verify_red_envelope_sender matches c.sender c.title none money members c.stored g)
      (common_envelope c money members) c

unfoldable pub send_as :
    (String → ℤ → Bool) → Settings → Command → Option Target → Group → Sent × Group
unfolding send_private send_common int_item
send_as matches o c none g = send_common matches c (int_item 1 c.words) (int_item 2 c.words) g
send_as matches o c (some t) g =
    if o.allow_private then send_private matches c t g else (private_closed, g)

-- `send_red_envelope`
unfoldable pub send_red_envelope : (String → ℤ → Bool) → Settings → Command → Group → Sent × Group
unfolding send_as
send_red_envelope matches o c g =
    if not o.status then (closed, g) else send_as matches o c c.reply_to g
