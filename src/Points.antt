-- ===== src/Points.antt =====
-- application/point_service.py: the balances of coins and of registration days.
-- `metadata` and the actor are passed through; `occurred_at` enters as its clock reading, which is
-- what `replace(tzinfo=None)` keeps.
pub mod Posted
pub mod Effects
pub mod Tests
pub mod Calls
pub mod Fresh
pub mod CheckIn
pub mod Limits
pub mod Audit
pub mod Mirror
use Prim.Native.String.{compare}
use Prim.Native.Nat.{Ordering}
use sakura_embyboss.Prelude.{
  ℕ, ℤ, pos, negsuc, ◌+ℤ◌, ◌-ℤ◌, neg, ltb_ℤ, leb, or_zero, String, Bool, true, false, not, ◌&&◌,
  ◌||◌, Option, none, some, [], ◌∷◌, ◌/◌, ◌==◌, eq_string, if◌then◌else◌, truthy, replace,
  str_append, str_int,
}
use sakura_embyboss.Exec.{
  Exec, pure, raise, gets, modify, transaction, value_error, type_error, ◌>>=◌, ◌>>◌,
}
use sakura_embyboss.Database.{
  Db, DateTime, num, text, time, texts, Fields, Actor, ServiceResult, result, to_dict, from_dict,
  Emby, has_tg, get_user,
}
use sakura_embyboss.Operations.{
  get_idempotent_result, save_idempotent_result, audit, event, Posting, point_transaction,
}

abbrev pub max_int_value : ℤ
max_int_value = pos 2147483647

abbrev pub min_int_value : ℤ
min_int_value = negsuc 2147483647

-- The columns that `BALANCE_FIELDS` names.
pub data Balance : Type 0 where
  iv us : Balance

-- `BALANCE_FIELDS.get(balance_type)`
unfoldable pub balance_field : String → Option Balance
balance_field name =
    if name == "coins" then some iv else if name == "registration_days" then some us else none

-- `getattr(user, field)`
abbrev pub get_balance : Balance → Emby → Option ℤ
get_balance iv u = u.iv
get_balance us u = u.us

-- `setattr(user, field, value)`
abbrev pub set_balance : Balance → ℤ → Emby → Emby
set_balance iv v u = record u { iv = some v }
set_balance us v u = record u { us = some v }

-- The changed user row is written at the flush.
abbrev pub save_user : Emby → Exec Db (Unit {0})
save_user u = modify (λ (s : Db). record s { users = replace (has_tg u.tg) u s.users })

abbrev pub balance_fields : ℤ → Fields
balance_fields balance = ("balance", num balance) ∷ []

abbrev pub adjust_posting :
    ℤ → String → ℤ → ℤ → String → Actor → Option String → Option Fields → Posting
adjust_posting tg balance_type amount balance reason actor key metadata = record {
  tg = tg;
  balance_type = balance_type;
  amount = amount;
  balance_after = balance;
  reason = reason;
  actor = actor;
  idempotency_key = key;
  metadata = metadata;
}

abbrev pub adjust_answer : ℤ → ℤ → ServiceResult
adjust_answer new_balance amount =
    result "ok" (("balance", num new_balance) ∷ ("amount", num amount) ∷ [])

abbrev pub check_in_answer : ℤ → ℤ → DateTime → ServiceResult
check_in_answer new_balance reward db_time =
    result "ok"
      (("balance", num new_balance) ∷ ("reward", num reward) ∷ ("checked_at", time db_time) ∷ [])

abbrev pub purchase_level_answer : ℤ → String → ServiceResult
purchase_level_answer new_balance target_level =
    result "ok" (("balance", num new_balance) ∷ ("level", text target_level) ∷ [])

-- `adjust` behind its guards: the writes of a change of the balance.
unfoldable pub adjust_write :
    Balance
    → Emby
    → ℤ
    → ℤ
    → String
    → String
    → Actor
    → Option String
    → Option Fields
    → Exec Db ServiceResult
adjust_write field user amount new_balance balance_type reason actor key metadata = do
  save_user (set_balance field new_balance user)
  point_transaction
      (adjust_posting user.tg balance_type amount new_balance reason actor key metadata)
  audit actor "points.adjust" "user" (some (str_int user.tg)) "success" (
      some (
        ("balance_type", text balance_type)
        ∷ ("amount", num amount)
        ∷ ("balance_after", num new_balance)
        ∷ ("reason", text reason)
        ∷ []))
  event "points.changed" "user" (some (str_int user.tg)) (
      ("tg", num user.tg)
      ∷ ("balance_type", text balance_type)
      ∷ ("amount", num amount)
      ∷ ("balance_after", num new_balance)
      ∷ [])
  let outcome = adjust_answer new_balance amount
  save_idempotent_result (str_append "points.adjust." balance_type) key (to_dict outcome)
  pure outcome

-- `adjust` on the locked user, without an earlier result.
unfoldable pub adjust_user :
    Balance
    → Emby
    → ℤ
    → String
    → String
    → Actor
    → Bool
    → Option String
    → Option Fields
    → Exec Db ServiceResult
adjust_user field user amount balance_type reason actor allow_negative key metadata =
    let old_balance = or_zero (get_balance field user) in
    let new_balance = old_balance +ℤ amount in
    if ltb_ℤ max_int_value new_balance || ltb_ℤ new_balance min_int_value
    then pure (result "overflow" (balance_fields old_balance))
    else if not allow_negative && ltb_ℤ new_balance (pos 0)
    then pure (result "insufficient_balance" (balance_fields old_balance))
    else adjust_write field user amount new_balance balance_type reason actor key metadata

-- The start of every operation here: the lock of the user, then an earlier result under the key.
unfoldable pub on_user :
    ℤ → String → Option String → String → (Emby → Exec Db ServiceResult) → Exec Db ServiceResult
on_user tg scope key missing body = transaction do
  found ← gets (get_user tg)
  elim found [
    | none ↦ pure (result missing [])
    | some user ↦ do
      replay ← get_idempotent_result scope key
      elim replay [ some saved ↦ pure (from_dict saved) | none ↦ body user ]
  ]

pub adjust :
    ℤ → ℤ → String → String → Actor → Bool → Option String → Option Fields → Exec Db ServiceResult
unfolding on_user adjust_user
adjust tg amount balance_type reason actor allow_negative key metadata =
    elim (balance_field balance_type) [
      | none ↦ raise value_error
      | some field ↦
          on_user tg (str_append "points.adjust." balance_type) key "user_not_found" (λ user.
            adjust_user field user amount balance_type reason actor allow_negative key metadata)
    ]

abbrev pub day : ℕ
day = 86400000000

-- `t.date()`, as its ordinal.
abbrev pub date : DateTime → ℕ
date t = t / day

abbrev pub is_gt : Ordering → Bool
is_gt Ordering.gt = true
is_gt _ = false

-- `user.lv > level` of two strings; None does not compare.
abbrev pub above_level : Option String → String → Exec Db Bool
above_level none level = raise type_error
above_level (some lv) level = pure (is_gt (compare lv level))

-- `maximum_level and user.lv > maximum_level`
abbrev pub level_denied : Option String → Option String → Exec Db Bool
level_denied lv none = pure false
level_denied lv (some maximum) = if maximum == "" then pure false else above_level lv maximum

-- `user.ch and user.ch.date() >= db_time.date()`
abbrev pub checked_in : Option DateTime → DateTime → Bool
checked_in none now = false
checked_in (some last) now = leb (date now) (date last)

abbrev pub checked_fields : Option DateTime → Fields
checked_fields none = []
checked_fields (some last) = ("checked_at", time last) ∷ []

unfoldable pub check_in_write :
    Emby → ℤ → ℤ → DateTime → Actor → Option String → Exec Db ServiceResult
check_in_write user reward new_balance db_time actor key = do
  save_user (record user { iv = some new_balance; ch = some db_time })
  point_transaction
      (adjust_posting user.tg "coins" reward new_balance "daily_check_in" actor key none)
  audit actor "points.check_in" "user" (some (str_int user.tg)) "success"
      (some (("reward", num reward) ∷ ("balance_after", num new_balance) ∷ []))
  event "points.changed" "user" (some (str_int user.tg)) (
      ("tg", num user.tg)
      ∷ ("balance_type", text "coins")
      ∷ ("amount", num reward)
      ∷ ("balance_after", num new_balance)
      ∷ [])
  let outcome = check_in_answer new_balance reward db_time
  save_idempotent_result "points.check_in" key (to_dict outcome)
  pure outcome

-- `check_in` behind its test of the level.
unfoldable pub check_in_level :
    Emby → ℤ → DateTime → Actor → Option String → Bool → Exec Db ServiceResult
check_in_level user reward db_time actor key denied =
    let old_balance = or_zero user.iv in
    let new_balance = old_balance +ℤ reward in
    if denied
    then pure (result "level_denied" [])
    else if checked_in user.ch db_time
    then pure (result "already_checked_in" (checked_fields user.ch))
    else if ltb_ℤ max_int_value new_balance
    then pure (result "overflow" (balance_fields old_balance))
    else check_in_write user reward new_balance db_time actor key

unfoldable pub check_in_user :
    Emby → ℤ → DateTime → Actor → Option String → Option String → Exec Db ServiceResult
unfolding check_in_level
check_in_user user reward db_time actor maximum_level key = do
  denied ← level_denied user.lv maximum_level
  check_in_level user reward db_time actor key denied

pub check_in : ℤ → ℤ → DateTime → Actor → Option String → Option String → Exec Db ServiceResult
unfolding on_user check_in_user
check_in tg reward occurred_at actor maximum_level key =
    on_user tg "points.check_in" key "user_not_found"
      λ user. check_in_user user reward occurred_at actor maximum_level key

unfoldable pub purchase_level_write :
    Emby → String → ℤ → ℤ → Actor → String → Option String → Exec Db ServiceResult
purchase_level_write user target_level cost new_balance actor reason key = do
  save_user (record user { iv = some new_balance; lv = some target_level })
  point_transaction (adjust_posting user.tg "coins" (neg cost) new_balance reason actor key none)
  audit actor "user.level.purchase" "user" (some (str_int user.tg)) "success" (
      some (
        ("target_level", text target_level)
        ∷ ("cost", num cost)
        ∷ ("balance_after", num new_balance)
        ∷ []))
  event "user.updated" "user" (some (str_int user.tg))
      (("tg", num user.tg) ∷ ("changed_fields", texts ("lv" ∷ "iv" ∷ [])) ∷ [])
  let outcome = purchase_level_answer new_balance target_level
  save_idempotent_result (str_append "points.purchase_level." target_level) key (to_dict outcome)
  pure outcome

-- `user.lv == target_level`
abbrev pub has_level : Option String → String → Bool
has_level none level = false
has_level (some lv) level = lv == level

unfoldable pub purchase_level_user :
    Emby → String → ℤ → Actor → String → Option String → Exec Db ServiceResult
purchase_level_user user target_level cost actor reason key =
    let balance = or_zero user.iv in
    if not (truthy user.embyid)
    then pure (result "no_account" [])
    else if has_level user.lv target_level
    then pure (result "already_owned" (balance_fields balance))
    else if ltb_ℤ balance cost
    then pure (result "insufficient_balance" (balance_fields balance))
    else purchase_level_write user target_level cost (balance -ℤ cost) actor reason key

pub purchase_level : ℤ → String → ℤ → Actor → String → Option String → Exec Db ServiceResult
unfolding on_user purchase_level_user
purchase_level tg target_level cost actor reason key =
    on_user tg (str_append "points.purchase_level." target_level) key "user_not_found"
      λ user. purchase_level_user user target_level cost actor reason key
