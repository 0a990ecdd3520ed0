-- ===== src/Points/Tests.antt =====
-- Runs of the point service on a small database, and the theorems at these inputs.
use sakura_embyboss.Prelude.{
  ℤ, pos, negsuc, ◌+ℤ◌, ◌-ℤ◌, ◌≤ℤ◌, neg, true, false, ◌≡◌, refl, inl, inr, none, some, [], ◌∷◌,
  arith, first, replace, str_int, int_laws, int_eq, int_eq_iff, Bool-cases, some_inj, sym, ◌∙◌,
}
use sakura_embyboss.Exec.{ok}
use sakura_embyboss.Database.{
  Db, Actor, result, num, from_dict, to_dict, Emby, Account, get_user, by_legacy_tg,
}
use sakura_embyboss.Operations.{
  audit, event, point_transaction, save_idempotent_result, find_saved, clashes,
}
use sakura_embyboss.Points.{
  Balance, iv, us, check_in_answer, purchase_level_answer, adjust, adjust_write, check_in,
  check_in_write, purchase_level, purchase_level_write, balance_field, adjust_answer,
}
use sakura_embyboss.Points.Posted.{balance}
use sakura_embyboss.Points.Audit.{IsAudited, total}
use sakura_embyboss.Points.Mirror.{IsMirrored}
use sakura_embyboss.Points.Calls.{
  Call, adjusts, run, CallPosted, refusal_changes_nothing, acceptance_is_posting, run_twice,
}
use sakura_embyboss.Points.Limits.{InRange, adjust_limits, purchase_level_limits}
use sakura_embyboss.Points.CheckIn.{check_in_once}

abbrev pub user : Emby
user = record {
  tg = pos 7;
  embyid = some "e7";
  name = some "ann";
  pwd = none;
  pwd2 = none;
  lv = some "b";
  cr = none;
  ex = none;
  us = some (pos 0);
  iv = some (pos 10);
  ch = none;
}

abbrev pub account : Account
account = record { id = "a7"; legacy_tg = pos 7; display_name = none; status = "active" }

abbrev pub db : Db
db = record {
  users = user ∷ [];
  accounts = account ∷ [];
  identities = [];
  wallets = [];
  ledger = [];
  transactions = [];
  next_transaction = 1;
  idempotency = [];
  audits = [];
  events = [];
  codes = [];
  tasks = [];
  job_runs = [];
  partition_codes = [];
  grants = [];
  settings = [];
  preferences = [];
  notifications = [];
  products = [];
  next_product = 1;
  orders = [];
  order_results = [];
  billing = [];
  tickets = [];
  messages = [];
  next_message = 1;
  requests = [];
}

user_found : get_user (pos 7) db ≡ some user
unfolding first
user_found = refl

abbrev pub admin : Actor
admin = record { kind = "web"; identifier = "1"; display_name = none }

abbrev pub gift : Call
gift = adjusts (pos 7) (pos 5) "coins" "gift" admin false (some "k") none

gift_accepted : (run gift db).0 ≡ ok (adjust_answer (pos 15) (pos 5))
unfolding run adjust adjust_write balance_field first find_saved audit event point_transaction
    save_idempotent_result clashes replace ◌+ℤ◌ str_int
gift_accepted = refl

abbrev pub payment : Call
payment = adjusts (pos 7) (negsuc 19) "coins" "pay" admin false none none

payment_refused :
    (run payment db).0 ≡ ok (result "insufficient_balance" (("balance", num (pos 10)) ∷ []))
unfolding run adjust adjust_write balance_field first find_saved ◌+ℤ◌
payment_refused = refl

refusal_changes_nothing_example : (run payment db).1 ≡ db
unfolding run adjust adjust_write balance_field first find_saved ◌+ℤ◌
refusal_changes_nothing_example = refusal_changes_nothing payment db (inl refl)

acceptance_is_posting_example : CallPosted gift db (run gift db).1
acceptance_is_posting_example =
    acceptance_is_posting gift db (adjust_answer (pos 15) (pos 5)) gift_accepted refl refl

run_twice_example :
    run gift (run gift db).1
    ≡ (ok (from_dict (to_dict (adjust_answer (pos 15) (pos 5)))), (run gift db).1)
run_twice_example =
    run_twice gift db (adjust_answer (pos 15) (pos 5)) "k" refl refl gift_accepted refl refl

abbrev pub opening : ℤ → Balance → ℤ
opening tg field = elim (get_user tg db) [ none ↦ pos 0 | some u ↦ balance field u ]

add-zero : (a : ℤ) → a ≡ a +ℤ pos 0
add-zero a = omega int_laws

pub db-IsAudited : IsAudited opening db
unfolding total
db-IsAudited = record {
  adds_up = λ tg field u found. rw (found, opening) (add-zero (balance field u));
}

account_only : (tg : ℤ) (a : Account) → by_legacy_tg tg db ≡ some a → (a ≡ account) × (tg ≡ pos 7)
unfolding first
account_only tg a h = elim (Bool-cases (int_eq (pos 7) tg)) [
  | inl e ↦ (sym (some_inj (sym (rw (e, first)) ∙ h)), sym ((int_eq_iff (pos 7) tg).0 e))
  | inr e ↦ absurd (none-ne-some (sym (rw (e, first)) ∙ h))
]
  where
    none-ne-some : {x : Account} → none ≡ some x → ⊥
    none-ne-some q = cc

pub db-IsMirrored : IsMirrored db
unfolding first
db-IsMirrored = record {
  named = λ tg a e. rw ((account_only tg a e).0);
  apart = λ tg tg' a a' e e' same. (account_only tg a e).1 ∙ sym (account_only tg' a' e').1;
  held = λ tg field u a w eu ea ew. cc;
}

-- The user after a call that is followed through.
abbrev richer : Emby
richer = record user { iv = some (pos 15) }

gift_user :
    get_user (pos 7) (adjust (pos 7) (pos 5) "coins" "gift" admin false (some "k") none db).1
    ≡ some richer
unfolding adjust adjust_write balance_field first find_saved audit event point_transaction
    save_idempotent_result clashes replace ◌+ℤ◌ str_int
gift_user = refl

adjust_limits_example : InRange false (pos 15)
unfolding run balance_field
adjust_limits_example =
    adjust_limits (pos 7) (pos 5) "coins" "gift" admin false (some "k") none db iv
      (adjust_answer (pos 15) (pos 5)) richer refl gift_accepted refl refl gift_user

check_in_day_1 :
    (check_in (pos 7) (pos 3) 1000 admin none (some "d") db).0
    ≡ ok (check_in_answer (pos 13) (pos 3) 1000)
unfolding check_in check_in_write first find_saved audit event point_transaction
    save_idempotent_result clashes replace ◌+ℤ◌ str_int
check_in_day_1 = refl

abbrev checked : Db
checked = (check_in (pos 7) (pos 3) 1000 admin none (some "d") db).1

check_in_again :
    (check_in (pos 7) (pos 3) 2000 admin none (some "d") checked).0
    ≡ ok (from_dict (to_dict (check_in_answer (pos 13) (pos 3) 1000)))
unfolding check_in check_in_write first find_saved audit event point_transaction
    save_idempotent_result clashes replace ◌+ℤ◌ str_int
check_in_again = refl

check_in_once_example :
    (from_dict (to_dict (check_in_answer (pos 13) (pos 3) 1000))).replayed ≡ true
check_in_once_example =
    check_in_once (pos 7) (pos 3) (pos 3) 1000 2000 admin admin none none (some "d") (some "d") db
      (check_in_answer (pos 13) (pos 3) 1000)
      (from_dict (to_dict (check_in_answer (pos 13) (pos 3) 1000))) (omega arith) check_in_day_1
      refl refl check_in_again refl

abbrev whitelisted : Emby
whitelisted = record user { iv = some (pos 4); lv = some "a" }

purchase_answered :
    (purchase_level (pos 7) "a" (pos 6) admin "level" none db).0
    ≡ ok (purchase_level_answer (pos 4) "a")
unfolding purchase_level purchase_level_write first find_saved audit event point_transaction
    save_idempotent_result clashes replace ◌-ℤ◌ neg str_int
purchase_answered = refl

purchase_user :
    get_user (pos 7) (purchase_level (pos 7) "a" (pos 6) admin "level" none db).1 ≡ some whitelisted
unfolding purchase_level purchase_level_write first find_saved audit event point_transaction
    save_idempotent_result clashes replace ◌-ℤ◌ neg str_int
purchase_user = refl

purchase_level_limits_example :
    (balance iv whitelisted ≡ pos 10 -ℤ pos 6)
    × (pos 0 ≤ℤ balance iv whitelisted)
    × (whitelisted.lv ≡ some "a")
    × (balance us whitelisted ≡ pos 0)
purchase_level_limits_example =
    purchase_level_limits (pos 7) "a" (pos 6) admin "level" none db
      (purchase_level_answer (pos 4) "a") user whitelisted purchase_answered refl refl user_found
      purchase_user
