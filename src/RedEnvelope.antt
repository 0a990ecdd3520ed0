-- ===== src/RedEnvelope.antt =====
-- modules/extra/red_envelope.py: the red envelopes of a group, which the bot keeps in memory
-- (`red_envelopes`), over the balances of the table `emby`. What a handler does between two awaits is one
-- step: a press at a private envelope reads, awaits its answer and then pays (`answer_private`), and a
-- press that paid awaits another answer before it takes an empty envelope out (`finish_grab`). A step
-- after an await finds its envelope by the id, which is not used again meanwhile. A send charges its
-- sender, awaits an answer and an id, and then puts the envelope into the dictionary: it is one
-- step here, since nobody can press at an envelope that is not sent yet. The answers to users
-- are left out, but for what they say. `stored` tells whether `sql_update_emby` gets its commit
-- through: the code does not look.
pub mod Cases
pub mod Checks
pub mod Coins
pub mod Draws
pub mod Once
pub mod Progress
pub mod Rank
pub mod Runs
pub mod Send
pub mod Sums
mod Tests
use sakura_embyboss.Prelude.{
  ℕ, zero, suc, ℤ, pos, negsuc, ◌+ℤ◌, ◌-ℤ◌, leb_ℤ, ltb_ℤ, neg_part, pos_part, ◌/◌, String, Bool,
  true, false, not, ◌&&◌, ◌||◌, Option, none, some, List, [], ◌∷◌, ◌==◌, eq_int, eq_string,
  if◌then◌else◌, first, replace, length, leb, parse_int,
}
use sakura_embyboss.Database.{Emby}
use sakura_embyboss.Points.{max_int_value, min_int_value}

pub data EnvelopeType : Type 0 where
  random : EnvelopeType
  equal : EnvelopeType
  private_ : EnvelopeType

-- A value of `receivers`, with its key.
pub record Receipt : Type 0 where
  pub tg : ℤ
  pub amount : ℤ
  pub name : String

pub record RedEnvelope : Type 0 where
  pub id : String
  pub money : ℤ
  pub rest_money : ℤ
  pub members : ℤ
  pub rest_members : ℤ
  pub sender_id : ℤ
  pub sender_name : String
  pub envelope_type : EnvelopeType
  pub receivers : List Receipt
  pub target_user : Option ℤ
  pub message : String

-- The rows of `emby` and the dictionary, whose keys are the ids.
pub record Group : Type 0 where
  pub users : List Emby
  pub red_envelopes : List RedEnvelope

abbrev pub has_id : String → RedEnvelope → Bool
has_id id e = e.id == id

-- `red_envelopes.pop(red_id)`
unfoldable pub pop_item : String → List RedEnvelope → List RedEnvelope
pop_item id [] = []
pop_item id (e ∷ es) = let rest = pop_item id es in if e.id == id then rest else e ∷ rest

-- `red_envelopes[red_id] = envelope`
unfoldable pub set_item : RedEnvelope → List RedEnvelope → List RedEnvelope
set_item e es = e ∷ pop_item e.id es

abbrev pub item : ℕ → List String → Option String
item n [] = none
item zero (w ∷ ws) = some w
item (suc n) (w ∷ ws) = item n ws

-- How the database compares a text column with a number.
module _ (matches : String → ℤ → Bool) where
  abbrev pub text_is : Option String → ℤ → Bool
  text_is none tg = false
  text_is (some s) tg = matches s tg

  abbrev pub is_emby : ℤ → Emby → Bool
  is_emby tg u = u.tg == tg || text_is u.name tg || text_is u.embyid tg

  -- `sql_get_emby(tg)`
  unfoldable pub sql_get_emby : ℤ → List Emby → Option Emby
  sql_get_emby tg users = first (is_emby tg) users

abbrev pub has_tg : ℤ → Emby → Bool
has_tg tg u = u.tg == tg

unfoldable pub set_iv : Option Emby → ℤ → ℤ → List Emby → List Emby
set_iv none tg iv users = users
set_iv (some u) tg iv users = replace (has_tg tg) (record u { iv = some iv }) users

-- `sql_update_emby(Emby.tg == tg, iv=iv)`
unfoldable pub sql_update_emby : Bool → ℤ → ℤ → Group → Group
unfolding set_iv
sql_update_emby stored tg iv g =
    if stored then record g { users = set_iv (first (has_tg tg) g.users) tg iv g.users } else g

-- The arguments of `create_reds`.
pub record NewEnvelope : Type 0 where
  pub money : ℤ
  pub members : ℤ
  pub first_name : String
  pub sender_id : ℤ
  pub envelope_type : EnvelopeType
  pub target : Option ℤ
  pub text : Option String

-- `if private:`
abbrev pub is_set : Option ℤ → Bool
is_set none = false
is_set (some tg) = not (tg == pos 0)

abbrev pub message_of : Option String → String → String
message_of none red_bag = red_bag
message_of (some t) red_bag = t

abbrev pub new_envelope : NewEnvelope → String → String → RedEnvelope
new_envelope a red_id red_bag = record {
  id = red_id;
  money = a.money;
  rest_money = a.money;
  members = a.members;
  rest_members = a.members;
  sender_id = a.sender_id;
  sender_name = a.first_name;
  envelope_type = if is_set a.target then private_ else a.envelope_type;
  receivers = [];
  target_user = if is_set a.target then a.target else none;
  message = message_of a.text red_bag;
}

-- `create_reds`, with the `pwd_create(5)` and the `random.choice` of the call.
unfoldable pub create_reds : NewEnvelope → String → String → Group → Group
create_reds a red_id red_bag g = record g {
  red_envelopes = set_item (new_envelope a red_id red_bag) g.red_envelopes;
}

-- What a press comes to: `gone` is the answer that the envelope is empty, `failed` an exception, and
-- `waiting` a press at a private envelope that has read the balance and the amount and awaits its answer.
pub data Grabbed : Type 0 where
  gone : Grabbed
  unknown_user : Grabbed
  greedy : Grabbed
  not_yours : Grabbed
  out_of_range : Grabbed
  failed : Grabbed
  paid : ℤ → Grabbed
  waiting : Option ℤ → ℤ → Grabbed

-- A press of a user: `draw` is the integer part of `random.uniform(1, 2 * rest_money /
-- rest_members)`, as the generator answers it at this press.
pub record Press : Type 0 where
  pub tg : ℤ
  pub first_name : Option String
  pub red_id : String
  pub draw : ℤ → ℤ → ℤ
  pub stored : Bool

unfoldable pub has_received : ℤ → List Receipt → Bool
has_received tg [] = false
has_received tg (r ∷ rs) = r.tg == tg || has_received tg rs

-- `a // b` for a positive `b`
unfoldable pub floor_div : ℤ → ℤ → ℤ
floor_div (pos a) b = pos (a / pos_part b)
floor_div (negsuc a) b = negsuc (a / pos_part b)

abbrev pub is_target : Option ℤ → ℤ → Bool
is_target none tg = false
is_target (some t) tg = tg == t

unfoldable pub random_amount : (ℤ → ℤ → ℤ) → RedEnvelope → ℤ
random_amount draw e =
    if ltb_ℤ (pos 1) e.rest_members then draw e.rest_money e.rest_members else e.rest_money

unfoldable pub amount_by : EnvelopeType → Press → RedEnvelope → Option ℤ
unfolding floor_div random_amount
amount_by equal p e = some (floor_div e.money e.members)
amount_by private_ p e = if is_target e.target_user p.tg then some e.rest_money else none
amount_by random p e = some (random_amount p.draw e)

-- The amount of a press; None is the answer to another user at a private envelope.
unfoldable pub amount_of : Press → RedEnvelope → Option ℤ
unfolding amount_by
amount_of p e = amount_by e.envelope_type p e

abbrev pub name_or : Option String → String
name_or none = "Anonymous"
name_or (some s) = if s == "" then "Anonymous" else s

abbrev pub after_grab : Press → ℤ → RedEnvelope → RedEnvelope
after_grab p amount e = record e {
  receivers = record { tg = p.tg; amount = amount; name = name_or p.first_name } ∷ e.receivers;
  rest_money = e.rest_money -ℤ amount;
  rest_members = e.rest_members -ℤ pos 1;
}

unfoldable pub pay_out : Press → ℤ → ℤ → RedEnvelope → Group → Grabbed × Group
unfolding sql_update_emby set_item
pay_out p iv amount e g =
    let new_balance = iv +ℤ amount in
    let g' = sql_update_emby p.stored p.tg new_balance g in
    if ltb_ℤ max_int_value new_balance || ltb_ℤ new_balance min_int_value
    then (out_of_range, g)
    else (
      paid amount,
      record g' { red_envelopes = set_item (after_grab p amount e) g'.red_envelopes },
    )

-- The payment, to a user whose balance was read as `iv`; None raises a `TypeError`.
unfoldable pub pay_read : Press → Option ℤ → ℤ → RedEnvelope → Group → Grabbed × Group
unfolding pay_out
pay_read p none amount e g = (failed, g)
pay_read p (some iv) amount e g = pay_out p iv amount e g

abbrev pub is_private : EnvelopeType → Bool
is_private random = false
is_private equal = false
is_private private_ = true

-- From the amount on, up to the next await.
unfoldable pub pay : Press → Option ℤ → Option ℤ → RedEnvelope → Group → Grabbed × Group
unfolding pay_read
pay p none iv e g = (not_yours, g)
pay p (some amount) iv e g =
    if is_private e.envelope_type then (waiting iv amount, g) else pay_read p iv amount e g

-- The payment out of an envelope that is no longer in the dictionary.
unfoldable pub pay_detached : Press → Option ℤ → ℤ → Group → Grabbed × Group
unfolding sql_update_emby
pay_detached p none amount g = (failed, g)
pay_detached p (some iv) amount g =
    let new_balance = iv +ℤ amount in
    if ltb_ℤ max_int_value new_balance || ltb_ℤ new_balance min_int_value
    then (out_of_range, g)
    else (paid amount, sql_update_emby p.stored p.tg new_balance g)

unfoldable pub answer_from : Press → Option ℤ → ℤ → Option RedEnvelope → Group → Grabbed × Group
unfolding pay_read pay_detached
answer_from p iv amount none g = pay_detached p iv amount g
answer_from p iv amount (some e) g =
    if is_private e.envelope_type then pay_read p iv amount e g else pay_detached p iv amount g

-- `grab_red_envelope` of a private envelope after its answer, with the balance and the amount that it
-- read before.
unfoldable pub answer_private : Press → Option ℤ → ℤ → Group → Grabbed × Group
unfolding answer_from
answer_private p iv amount g = answer_from p iv amount (first (has_id p.red_id) g.red_envelopes) g

unfoldable pub finish_from : String → Option RedEnvelope → Group → Group
unfolding pop_item
finish_from red_id none g = g
finish_from red_id (some e) g =
    let popped = record g { red_envelopes = pop_item red_id g.red_envelopes } in
    if e.rest_members == pos 0 then popped else g

-- The end of `grab_red_envelope`, after the answer to who was paid.
unfoldable pub finish_grab : String → Group → Group
unfolding finish_from
finish_grab red_id g = finish_from red_id (first (has_id red_id) g.red_envelopes) g

unfoldable pub grab_as : Press → Option Emby → RedEnvelope → Group → Grabbed × Group
unfolding has_received amount_of pay
grab_as p none e g = (unknown_user, g)
grab_as p (some u) e g =
    if has_received p.tg e.receivers
    then (greedy, g)
    else if leb_ℤ e.rest_members (pos 0)
    then (gone, g)
    else pay p (amount_of p e) u.iv e g

unfoldable pub grab_from :
    (String → ℤ → Bool) → Press → Option RedEnvelope → Group → Grabbed × Group
unfolding grab_as sql_get_emby
grab_from matches p none g = (gone, g)
grab_from matches p (some e) g = grab_as p (sql_get_emby matches p.tg g.users) e g

-- `grab_red_envelope` up to its first await, or to the one after a payment
unfoldable pub grab_red_envelope : (String → ℤ → Bool) → Press → Group → Grabbed × Group
unfolding grab_from
grab_red_envelope matches p g = grab_from matches p (first (has_id p.red_id) g.red_envelopes) g
