-- ===== src/Users.antt =====
-- application/user_service.py and repositories/users.py: the users of the bot and their accounts.
-- `uuid5` is the text of uuid.uuid5 in the namespace of URLs, of the name that follows, and `now`
-- is the clock reading.
mod Tests
pub mod Registration
pub mod Ensure
pub mod Update
pub mod Consume
use sakura_embyboss.Prelude.{
  ℤ, pos, or_zero, String, Bool, true, false, not, ◌&&◌, ◌||◌, Option, none, some, List, [], ◌∷◌,
  ◌==◌, eq_string, eq_int, eq_nat, if◌then◌else◌, first, str_append, str_int, is_some,
}
use sakura_embyboss.Exec.{
  Exec, pure, raise, gets, modify, transaction, integrity_error, value_error, ◌>>=◌, ◌>>◌,
}
use sakura_embyboss.Database.{
  Db, DateTime, num, text, texts, flag, Actor, ServiceResult, result, to_dict, Emby, Account,
  AccountIdentity, AccountWallet, get_user, by_legacy_tg,
}
use sakura_embyboss.Operations.{save_idempotent_result, audit, event, is_wallet}
use sakura_embyboss.Points.{save_user, on_user}

-- `Emby(tg=tg)` with the defaults of its columns
abbrev pub new_user : ℤ → Emby
new_user tg = record {
  tg = tg;
  embyid = none;
  name = none;
  pwd = none;
  pwd2 = none;
  lv = some "d";
  cr = none;
  ex = none;
  us = some (pos 0);
  iv = some (pos 0);
  ch = none;
}

abbrev pub add_user_or : ℤ → Option Emby → Exec Db (Emby × Bool)
add_user_or tg none =
    modify (λ (s : Db). record s { users = new_user tg ∷ s.users }) >> pure (new_user tg, true)
add_user_or tg (some u) = pure (u, false)

-- `UserRepository.add_if_missing`
unfoldable pub add_if_missing : ℤ → Exec Db (Emby × Bool)
add_if_missing tg = gets (get_user tg) >>= add_user_or tg

abbrev pub account_uuid : (String → String) → ℤ → String
account_uuid uuid5 tg = uuid5 (str_append "sakura-account:" (str_int tg))

abbrev pub new_account : (String → String) → ℤ → Account
new_account uuid5 tg = record {
  id = account_uuid uuid5 tg;
  legacy_tg = tg;
  display_name = some (str_append "TG " (str_int tg));
  status = "active";
}

abbrev pub new_identity : (String → String) → ℤ → AccountIdentity
new_identity uuid5 tg = record {
  id = uuid5 (str_append "sakura-identity:telegram:" (str_int tg));
  account_id = account_uuid uuid5 tg;
  provider = "telegram";
  subject = str_int tg;
}

abbrev pub new_wallet : String → String → Option ℤ → AccountWallet
new_wallet account_id balance_type value = record {
  account_id = account_id;
  balance_type = balance_type;
  balance = or_zero value;
  revision = 1;
}

abbrev has_account_id : String → Account → Bool
has_account_id id a = a.id == id

-- The unique keys of account_identities.
abbrev clashing_identity : AccountIdentity → AccountIdentity → Bool
clashing_identity i j =
    (j.id == i.id)
    || ((j.provider == i.provider) && (j.subject == i.subject))
    || ((j.account_id == i.account_id) && (j.provider == i.provider))

-- Whether an insert of the new account meets a row with one of its keys.
abbrev pub account_clashes : (String → String) → ℤ → Db → Bool
account_clashes uuid5 tg db =
    let id = account_uuid uuid5 tg in
    is_some (first (has_account_id id) db.accounts)
    || is_some (first (clashing_identity (new_identity uuid5 tg)) db.identities)
    || is_some (first (is_wallet id "coins") db.wallets)
    || is_some (first (is_wallet id "registration_days") db.wallets)

abbrev pub with_new_account : (String → String) → Emby → ℤ → Db → Db
with_new_account uuid5 user tg s = record s {
  accounts = new_account uuid5 tg ∷ s.accounts;
  identities = new_identity uuid5 tg ∷ s.identities;
  wallets =
      new_wallet (account_uuid uuid5 tg) "registration_days" user.us
      ∷ new_wallet (account_uuid uuid5 tg) "coins" user.iv
      ∷ s.wallets;
}

-- The account, its identity and its two wallets, at the flush.
unfoldable pub add_account : (String → String) → Emby → ℤ → Exec Db (Account × Bool)
add_account uuid5 user tg db =
    if account_clashes uuid5 tg db
    then raise integrity_error db
    else (modify (with_new_account uuid5 user tg) >> pure (new_account uuid5 tg, true)) db

abbrev pub account_or : (String → String) → Emby → ℤ → Option Account → Exec Db (Account × Bool)
account_or uuid5 user tg (some a) = pure (a, false)
account_or uuid5 user tg none = add_account uuid5 user tg

abbrev pub ensured : ℤ → Account → Bool → ServiceResult
ensured tg account created =
    result "ok" (("tg", num tg) ∷ ("account_id", text account.id) ∷ ("created", flag created) ∷ [])

unfoldable pub log_ensured : ℤ → Actor → Account → Bool → Exec Db ServiceResult
unfolding audit event
log_ensured tg actor account created = do
  audit actor (if created then "user.create" else "account.canonical.backfill") "user"
      (some (str_int tg)) "success"
      (some (("source", text actor.kind) ∷ ("account_id", text account.id) ∷ []))
  if created
      then event "user.created" "user" (some (str_int tg))
          (("tg", num tg) ∷ ("account_id", text account.id) ∷ [])
      else event "account.created" "account" (some account.id) (
          ("tg", num tg)
          ∷ ("account_id", text account.id)
          ∷ ("source", text "legacy-backfill")
          ∷ [])
  pure (ensured tg account created)

abbrev pub finish_ensure : ℤ → Actor → Bool → Account × Bool → Exec Db ServiceResult
finish_ensure tg actor created (account, account_created) =
    if not created && not account_created
    then (pure (ensured tg account false))
    else log_ensured tg actor account created

abbrev pub ensure_account : (String → String) → ℤ → Actor → Emby × Bool → Exec Db ServiceResult
ensure_account uuid5 tg actor (user, created) =
    gets (by_legacy_tg tg) >>= account_or uuid5 user tg >>= finish_ensure tg actor created

-- `ensure_user`
unfoldable pub ensure_user : (String → String) → ℤ → Actor → Exec Db ServiceResult
unfolding add_if_missing add_account log_ensured
ensure_user uuid5 tg actor = transaction (add_if_missing tg >>= ensure_account uuid5 tg actor)

-- One entry of `changes`; `other` is a name that MUTABLE_FIELDS lacks.
pub data Change : Type 0 where
  embyid name pwd pwd2 lv : Option String → Change
  cr ex ch : Option DateTime → Change
  us iv : Option ℤ → Change
  other : String → Change

abbrev pub opt_eq : {A : Type 0} → (A → A → Bool) → Option A → Option A → Bool
opt_eq eq none none = true
opt_eq eq none (some b) = false
opt_eq eq (some a) none = false
opt_eq eq (some a) (some b) = eq a b

abbrev pub is_supported : Change → Bool
is_supported (other key) = false
is_supported _ = true

abbrev pub all_supported : List Change → Bool
all_supported [] = true
all_supported (c ∷ cs) = is_supported c && all_supported cs

-- `getattr(user, key) != value`
unfoldable pub differs : Emby → Change → Bool
differs u (embyid v) = not (opt_eq (λ a b. a == b) u.embyid v)
differs u (name v) = not (opt_eq (λ a b. a == b) u.name v)
differs u (pwd v) = not (opt_eq (λ a b. a == b) u.pwd v)
differs u (pwd2 v) = not (opt_eq (λ a b. a == b) u.pwd2 v)
differs u (lv v) = not (opt_eq (λ a b. a == b) u.lv v)
differs u (cr v) = not (opt_eq (λ a b. a == b) u.cr v)
differs u (ex v) = not (opt_eq (λ a b. a == b) u.ex v)
differs u (ch v) = not (opt_eq (λ a b. a == b) u.ch v)
differs u (us v) = not (opt_eq (λ a b. a == b) u.us v)
differs u (iv v) = not (opt_eq (λ a b. a == b) u.iv v)
differs u (other key) = false

-- `setattr(user, key, value)`
unfoldable pub apply_change : Emby → Change → Emby
apply_change u (embyid v) = record u { embyid = v }
apply_change u (name v) = record u { name = v }
apply_change u (pwd v) = record u { pwd = v }
apply_change u (pwd2 v) = record u { pwd2 = v }
apply_change u (lv v) = record u { lv = v }
apply_change u (cr v) = record u { cr = v }
apply_change u (ex v) = record u { ex = v }
apply_change u (ch v) = record u { ch = v }
apply_change u (us v) = record u { us = v }
apply_change u (iv v) = record u { iv = v }
apply_change u (other key) = u

abbrev pub key_name : Change → String
key_name (embyid v) = "embyid"
key_name (name v) = "name"
key_name (pwd v) = "pwd"
key_name (pwd2 v) = "pwd2"
key_name (lv v) = "lv"
key_name (cr v) = "cr"
key_name (ex v) = "ex"
key_name (ch v) = "ch"
key_name (us v) = "us"
key_name (iv v) = "iv"
key_name (other key) = key

-- The loop over the changes: the user after it, and the names of what changed, in order.
unfoldable pub apply_changes : Emby → List Change → Emby × List String
unfolding differs apply_change
apply_changes u [] = (u, [])
apply_changes u (c ∷ cs) =
    let kept = apply_changes u cs in
    let (u', keys) = apply_changes (apply_change u c) cs in
    if differs u c then (u', key_name c ∷ keys) else kept

abbrev pub update_event : ℤ → List String → Exec Db (Unit {0})
update_event tg [] = pure tt
update_event tg (k ∷ ks) =
    event "user.updated" "user" (some (str_int tg))
      (("tg", num tg) ∷ ("changed_fields", texts (k ∷ ks)) ∷ [])

unfoldable pub update_write :
    ℤ → List Change → Actor → String → Option String → Emby → Exec Db ServiceResult
unfolding apply_changes audit event
update_write tg changes actor action key user = do
  let (user', changed_fields) = apply_changes user changes
  save_user user'
  audit actor action "user" (some (str_int tg)) "success"
      (some (("changed_fields", texts changed_fields) ∷ []))
  update_event tg changed_fields
  let outcome = result "ok" (("tg", num tg) ∷ ("changed_fields", texts changed_fields) ∷ [])
  save_idempotent_result action key (to_dict outcome)
  pure outcome

-- `update_user`
unfoldable pub update_user :
    ℤ → List Change → Actor → String → Option String → Exec Db ServiceResult
unfolding update_write on_user
update_user tg changes actor action key =
    if all_supported changes
    then on_user tg action key "user_not_found" (update_write tg changes actor action key)
    else raise value_error
