-- ===== src/RedEnvelope/Tests.antt =====
-- Two users and one envelope of modules/extra/red_envelope.py, and the theorems at these inputs.
use sakura_embyboss.Prelude.{
  All, replace, ℤ, pos, negsuc, ◌+ℤ◌, ◌-ℤ◌, ◌≤ℤ◌, String, Bool, true, false, ◌≡◌, refl, none, some,
  List, [], ◌∷◌, arith, first, parse_int,
}
use sakura_embyboss.Database.{Emby}
use sakura_embyboss.Points.Tests.{user}
use sakura_embyboss.RedEnvelope.{
  private_, answer_private, sql_update_emby, has_tg, after_grab, finish_grab, sql_get_emby, gone,
  set_item, pop_item, equal, RedEnvelope, Group, Press, has_id, has_received, paid,
  grab_red_envelope,
}
use sakura_embyboss.RedEnvelope.Send.{
  from_user, sender_chat, Command, Settings, sent, send_red_envelope,
}
use sakura_embyboss.RedEnvelope.Draws.{IsUniform, IsSound, paid_out}
use sakura_embyboss.RedEnvelope.Cases.{is_paid}
use sakura_embyboss.RedEnvelope.Runs.{
  answers, finishes, CommonSound, ranks, Event, sends, grabs, run, run-AllSound,
}
use sakura_embyboss.RedEnvelope.Sums.{coins, in_envelopes, all_coins}
use sakura_embyboss.RedEnvelope.Coins.{run-makes_no_coins}
use sakura_embyboss.RedEnvelope.Once.{grabbed_once}
use sakura_embyboss.RedEnvelope.Progress.{left_of, eligible_press_pays}
use sakura_embyboss.RedEnvelope.Rank.{Staff, RankCommand, s_rank}

abbrev no_match : String → ℤ → Bool
no_match s tg = false

abbrev ones : ℤ → ℤ → ℤ
ones rest members = pos 1

ones-IsUniform : IsUniform ones
ones-IsUniform rest members h k = (1, (refl, (omega arith, omega arith)))

abbrev bob : Emby
bob = record user { tg = pos 8 }

abbrev group : Group
group = record { users = user ∷ bob ∷ []; red_envelopes = [] }

abbrev settings : Settings
settings = record { status = true; allow_private = true }

abbrev command : Command
command = record {
  sender = from_user (pos 7) "ann";
  title = "group";
  reply_to = none;
  words = "red" ∷ "9" ∷ "2" ∷ "2" ∷ "hi" ∷ [];
  red_id = "abcde";
  red_bag = "luck";
  stored = true;
}

abbrev press : ℤ → Press
press tg = record { tg = tg; first_name = some "x"; red_id = "abcde"; draw = ones; stored = true }

abbrev drawn : Command
drawn = record command { words = "red" ∷ "9" ∷ "2" ∷ [] }

abbrev staff : Staff
staff = record { owner = pos 1; admins = pos 2 ∷ []; group = [] }

abbrev fee : RankCommand
fee = record { sender = from_user (pos 8) "bob"; srank_cost = pos 5; stored = true }

abbrev events : List Event
events =
    sends settings command
    ∷ grabs (press (pos 8))
    ∷ grabs (press (pos 7))
    ∷ finishes "abcde"
    ∷ ranks staff fee
    ∷ []

abbrev envelope : RedEnvelope
envelope = record {
  id = "abcde";
  money = pos 9;
  rest_money = pos 9;
  members = pos 2;
  rest_members = pos 2;
  sender_id = pos 7;
  sender_name = "ann";
  envelope_type = equal;
  receivers = [];
  target_user = none;
  message = "hi";
}

abbrev sent_group : Group
sent_group = record {
  users = record user { iv = some (pos 1) } ∷ bob ∷ [];
  red_envelopes = envelope ∷ [];
}

sends_to_group : send_red_envelope no_match settings command group ≡ (sent, sent_group)
unfolding send_red_envelope parse_int first replace set_item ◌-ℤ◌ pop_item
sends_to_group = refl

-- Nine coins in two equal shares, of which one is lost, and a fee of five.
coins_after : all_coins (run no_match events group) ≡ pos 14
unfolding run s_rank send_red_envelope grab_red_envelope finish_grab parse_int first replace
    set_item ◌-ℤ◌ ◌+ℤ◌ pop_item coins in_envelopes
coins_after = refl

-- An envelope of no shares takes the money of its sender, and nobody can grab from it.
no_shares :
    (grab_red_envelope no_match
      (press (pos 8))
      (send_red_envelope no_match settings
        (record command { words = "red" ∷ "9" ∷ "0" ∷ [] })
        group).1).0
    ≡ gone
unfolding send_red_envelope grab_red_envelope parse_int first replace set_item ◌-ℤ◌ pop_item
no_shares = refl

-- An envelope that the group itself sends is not checked: this one takes coins from who grabs.
negative_envelope :
    (grab_red_envelope no_match
      (press (pos 8))
      (send_red_envelope no_match settings
        (record command { sender = sender_chat (pos 1) true; words = "red" ∷ "-9" ∷ "1" ∷ [] })
        group).1).0
    ≡ paid (negsuc 8)
unfolding send_red_envelope grab_red_envelope parse_int first replace set_item ◌-ℤ◌ ◌+ℤ◌ pop_item
negative_envelope = refl

-- A private press that is answered, beside the others.
abbrev mixed : List Event
mixed = answers (press (pos 8)) (some (pos 10)) (pos 9) ∷ events

run-AllSound_example : All CommonSound (run no_match mixed group).red_envelopes
run-AllSound_example =
    run-AllSound no_match mixed group (tt, (tt, (ones-IsUniform, (ones-IsUniform, (tt, (tt, tt))))))
      tt

-- No text is taken for a number.
own_names : (u : Emby) (tg : ℤ) → false ≡ true → u.tg ≡ tg
own_names u tg h = cc

run-makes_no_coins_example : all_coins (run no_match events group) ≤ℤ all_coins group
run-makes_no_coins_example =
    run-makes_no_coins no_match events group
      ((tt, refl), (ones-IsUniform, (ones-IsUniform, (tt, (omega arith, tt)))))
      (own_names user, (own_names bob, tt)) tt

abbrev other_command : Command
other_command = record command { red_id = "fghij" }

abbrev later : List Event
later =
    sends settings other_command
    ∷ grabs (press (pos 8))
    ∷ answers (press (pos 9)) none (pos 3)
    ∷ finishes "abcde"
    ∷ []

grabbed_once_example :
    (is_paid
        (grab_red_envelope no_match
          (press (pos 8))
          (run no_match later (grab_red_envelope no_match (press (pos 8)) sent_group).1)).0
      ≡ false)
    × (grab_red_envelope no_match
        (press (pos 8))
        (run no_match later (grab_red_envelope no_match (press (pos 8)) sent_group).1)).1
      ≡ run no_match later (grab_red_envelope no_match (press (pos 8)) sent_group).1
unfolding grab_red_envelope first set_item pop_item replace ◌-ℤ◌ ◌+ℤ◌
grabbed_once_example =
    grabbed_once no_match (press (pos 8)) (press (pos 8)) later sent_group refl refl refl
      ((tt, refl), (tt, (tt, (tt, tt))))

envelope-IsSound : IsSound envelope
unfolding paid_out ◌+ℤ◌
envelope-IsSound = record {
  total = 9;
  rest = 9;
  total_is = refl;
  rest_is = refl;
  books = refl;
  counts = refl;
  once = tt;
  gains = tt;
  enough = omega arith;
}

eligible_press_pays_example :
    let out = grab_red_envelope no_match (press (pos 8)) sent_group in
    (a : ℤ) × (out.0 ≡ paid a)
    × (pos 0 ≤ℤ a)
    × (a ≤ℤ pos 9)
    × (first (has_tg (pos 8)) out.1.users ≡ some (record bob { iv = some (pos 10 +ℤ a) }))
    × (first (has_id "abcde") out.1.red_envelopes ≡ some (after_grab (press (pos 8)) a envelope))
    × (first (has_id "abcde") (finish_grab "abcde" out.1).red_envelopes
        ≡ left_of (after_grab (press (pos 8)) a envelope))
unfolding first has_received sql_get_emby ◌+ℤ◌
eligible_press_pays_example =
    eligible_press_pays no_match (press (pos 8)) sent_group envelope bob (pos 10) refl refl
      envelope-IsSound ones-IsUniform refl refl refl refl refl (omega arith) (omega arith) refl

abbrev for_bob : RedEnvelope
for_bob = record envelope {
  members = pos 1;
  rest_members = pos 1;
  envelope_type = private_;
  target_user = some (pos 8);
}

abbrev private_group : Group
private_group = record sent_group { red_envelopes = for_bob ∷ [] }

-- Both presses read before either is answered: the envelope stays, with minus one share.
private_twice :
    first
      (has_id "abcde")
      (run no_match
        (grabs (press (pos 8))
          ∷ grabs (press (pos 8))
          ∷ answers (press (pos 8)) (some (pos 10)) (pos 9)
          ∷ answers (press (pos 8)) (some (pos 10)) (pos 9)
          ∷ finishes "abcde"
          ∷ finishes "abcde"
          ∷ [])
        private_group).red_envelopes
    ≡ some (after_grab (press (pos 8)) (pos 9) (after_grab (press (pos 8)) (pos 9) for_bob))
unfolding run grab_red_envelope answer_private finish_grab sql_update_emby first replace set_item
    pop_item ◌-ℤ◌ ◌+ℤ◌
private_twice = refl
