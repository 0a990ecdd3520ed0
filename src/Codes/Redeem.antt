-- ===== src/Codes/Redeem.antt =====
-- `_redeem` of application/code_service.py, which redeem_whitelist, redeem_registration and
-- redeem_renewal call, and `purchase_registration_codes`.
use sakura_embyboss.Prelude.{
  ℕ, suc, ℤ, pos, negsuc, ◌+ℤ◌, ◌-ℤ◌, neg, ltb_ℤ, ◌*◌, ltb, leb, or_zero, String, Bool, false, not,
  ◌&&◌, Option, none, some, List, [], ◌∷◌, map, ◌==◌, eq_string, eq_int, if◌then◌else◌, truthy,
  str_append, str_int, str_before, is_some, length,
}
use sakura_embyboss.Exec.{Exec, pure, raise, gets, overflow_error, ◌>>=◌, ◌>>◌}
use sakura_embyboss.Database.{
  Db, DateTime, flag, num, text, time, Fields, Actor, ServiceResult, result, to_dict, Emby, Code,
  get_code, by_legacy_tg,
}
use sakura_embyboss.Operations.{
  save_idempotent_result, audit, event, Posting, point_transaction, account_id_of,
}
use sakura_embyboss.Points.{save_user, on_user, has_level, above_level}
use sakura_embyboss.Codes.{
  Kind, registration, renewal, whitelist, kind_name, is_over, save_code, add_rows, int_value,
  text_value,
}

-- `user.embyid` and the days that a user already has, for each kind.
abbrev pub account_denied : Kind → Emby → Option String
account_denied whitelist user = if truthy user.embyid then none else some "no_account"
account_denied renewal user = if truthy user.embyid then none else some "no_account"
account_denied registration user =
    if truthy user.embyid
    then some "has_account"
    else if ltb_ℤ (pos 0) (or_zero user.us)
    then some "already_qualified"
    else none

-- `code.status not in {None, "active"}`
abbrev pub is_blocked : Option String → Bool
is_blocked none = false
is_blocked (some s) = not (s == "active")

-- The code once it is used.
abbrev pub used_row : ℤ → DateTime → Option String → Code → Code
used_row tg now account_id c = record c {
  used = some tg;
  usedtime = some now;
  used_by_account_id = account_id;
  status = some "used";
}

abbrev pub expired_row : Code → Code
expired_row c = record c { status = some "expired" }

-- `datetime.max`
abbrev pub max_datetime : ℕ
max_datetime = 315537897599999999

abbrev pub days_of : ℤ → ℤ
days_of (pos n) = pos (n * 86400000000)
days_of (negsuc n) = neg (pos (suc n * 86400000000))

unfoldable pub in_calendar : ℤ → Exec Db DateTime
in_calendar (pos t) = if leb t max_datetime then pure t else raise overflow_error
in_calendar (negsuc n) = raise overflow_error

-- `t + timedelta(days=n)`
unfoldable pub add_days : DateTime → ℤ → Exec Db DateTime
unfolding in_calendar
add_days t n = in_calendar (pos t +ℤ days_of n)

-- What a call of `_redeem` is given.
pub record Redemption : Type 0 where
  pub kind : Kind
  pub code_value : String
  pub tg : ℤ
  pub logo : String
  pub actor : Actor
  pub idempotency_key : Option String
  pub now : DateTime

abbrev pub redeem_scope : Kind → String
redeem_scope kind = str_append "code.redeem." (kind_name kind)

module _ (fingerprint : String → String) (call : Redemption) where
  -- The log of a redemption.
  unfoldable pub log_redeemed : Code → Fields → Exec Db ServiceResult
  unfolding audit event
  log_redeemed c fields = do
    audit call.actor (redeem_scope call.kind) "registration_code"
        (some (fingerprint call.code_value)) "success"
        (some (("tg", num call.tg) ∷ ("issuer_tg", int_value c.tg) ∷ []))
    event "code.redeemed" "registration_code" (some (fingerprint call.code_value))
        (("tg", num call.tg) ∷ ("kind", text (kind_name call.kind)) ∷ [])
    save_idempotent_result (redeem_scope call.kind) call.idempotency_key
        (to_dict (result "ok" fields))
    pure (result "ok" fields)

  -- The end of every redemption: the code is used.
  abbrev pub use_code : Code → Fields → Exec Db ServiceResult
  use_code c fields = gets (by_legacy_tg call.tg) >>= λ account.
      save_code (used_row call.tg call.now (account_id_of account) c) >> log_redeemed c fields

  abbrev pub registration_posting : Emby → Code → Posting
  registration_posting user c = record {
    tg = call.tg;
    balance_type = "registration_days";
    amount = or_zero c.us;
    balance_after = or_zero user.us +ℤ or_zero c.us;
    reason = "redeem_registration_code";
    actor = call.actor;
    idempotency_key = call.idempotency_key;
    metadata = some (("code", text (fingerprint call.code_value)) ∷ []);
  }

  abbrev pub redeem_whitelist : Emby → Code → Exec Db ServiceResult
  redeem_whitelist user c =
      if has_level user.lv "a"
      then (pure (result "already_wl" []))
      else save_user (record user { lv = some "a" })
        >> use_code c (("issuer_tg", int_value c.tg) ∷ [])

  -- `prefix != str(logo) and prefix != str(tg)`
  abbrev pub is_foreign : Bool
  is_foreign =
      let prefix = str_before "-" call.code_value in
      not (prefix == call.logo) && not (prefix == str_int call.tg)

  abbrev pub with_days : Emby → Code → Emby
  with_days user c = record user { us = some (or_zero user.us +ℤ or_zero c.us) }

  abbrev pub redeem_registration : Emby → Code → Exec Db ServiceResult
  redeem_registration user c =
      if is_foreign
      then (pure (result "forbidden" []))
      else save_user (with_days user c)
        >> (point_transaction (registration_posting user c)
            >> use_code c (("issuer_tg", int_value c.tg) ∷ ("days", int_value c.us) ∷ []))

  -- `user.ex or now`
  abbrev pub current_ex : Emby → DateTime
  current_ex user = elim user.ex [ none ↦ call.now | some t ↦ t ]

  abbrev pub has_lapsed : Emby → Bool
  has_lapsed user = ltb (current_ex user) call.now

  -- The user after a renewal until `ex_new`.
  abbrev pub renewed : Emby → DateTime → Emby
  renewed user ex_new =
      let user' = record user { ex = some ex_new } in
      if has_lapsed user && has_level user.lv "c" then record user' { lv = some "b" } else user'

  abbrev pub renew_until : Emby → Code → DateTime → Exec Db ServiceResult
  renew_until user c ex_new =
      save_user (renewed user ex_new)
      >> use_code c (
          ("issuer_tg", int_value c.tg)
          ∷ ("days", int_value c.us)
          ∷ ("ex_new", time ex_new)
          ∷ ("embyid", text_value user.embyid)
          ∷ ("restore_policy", flag (has_lapsed user))
          ∷ [])

  abbrev pub redeem_renewal : Emby → Code → Exec Db ServiceResult
  redeem_renewal user c =
      add_days (if has_lapsed user then call.now else current_ex user) (or_zero c.us)
      >>= renew_until user c

  abbrev pub redeem_open : Kind → Emby → Code → Exec Db ServiceResult
  redeem_open whitelist user c = redeem_whitelist user c
  redeem_open registration user c = redeem_registration user c
  redeem_open renewal user c = redeem_renewal user c

  abbrev pub redeem_found : Emby → Option Code → Exec Db ServiceResult
  redeem_found user none = pure (result "invalid_code" [])
  redeem_found user (some c) =
      if is_some c.used
      then (pure (result "used" (("used", int_value c.used) ∷ [])))
      else if is_blocked c.status
      then (pure (result "invalid_code" []))
      else if is_over call.now c.expires_at
      then (save_code (expired_row c) >> pure (result "invalid_code" []))
      else redeem_open call.kind user c

  abbrev pub redeem_allowed : Emby → Option String → Exec Db ServiceResult
  redeem_allowed user (some status) = pure (result status [])
  redeem_allowed user none = gets (get_code call.code_value) >>= redeem_found user

  unfoldable pub redeem_user : Emby → Exec Db ServiceResult
  redeem_user user = redeem_allowed user (account_denied call.kind user)

  -- `_redeem`
  unfoldable pub redeem : Exec Db ServiceResult
  unfolding redeem_user on_user
  redeem = on_user call.tg (redeem_scope call.kind) call.idempotency_key "no_user" redeem_user

-- `CodeRepository.add_many`
abbrev pub many_rows : ℤ → ℤ → List String → List Code
many_rows tg days codes =
    map
      (λ value. record {
        code = value;
        tg = some tg;
        us = some days;
        used = none;
        usedtime = none;
        issuer_account_id = none;
        used_by_account_id = none;
        status = none;
        expires_at = none;
      })
      codes

abbrev pub purchase_posting : ℤ → ℤ → ℤ → ℕ → ℤ → Actor → Option String → Posting
purchase_posting tg cost balance count days actor key = record {
  tg = tg;
  balance_type = "coins";
  amount = neg cost;
  balance_after = balance;
  reason = "purchase_registration_codes";
  actor = actor;
  idempotency_key = key;
  metadata = some (("count", num (pos count)) ∷ ("days", num days) ∷ []);
}

unfoldable pub buy_codes :
    Emby → List String → ℤ → ℤ → ℤ → Actor → Option String → Exec Db ServiceResult
unfolding add_rows audit event
buy_codes user codes days cost new_balance actor key = do
  add_rows (many_rows user.tg days codes)
  save_user (record user { iv = some new_balance })
  point_transaction (purchase_posting user.tg cost new_balance (length codes) days actor key)
  audit actor "code.purchase.registration" "user" (some (str_int user.tg)) "success"
      (some (("count", num (pos (length codes))) ∷ ("days", num days) ∷ ("cost", num cost) ∷ []))
  event "points.changed" "user" (some (str_int user.tg)) (
      ("tg", num user.tg)
      ∷ ("balance_type", text "coins")
      ∷ ("amount", num (neg cost))
      ∷ ("balance_after", num new_balance)
      ∷ [])
  let outcome =
      result "ok" (("balance", num new_balance) ∷ ("count", num (pos (length codes))) ∷ [])
  save_idempotent_result "code.purchase.registration" key (to_dict outcome)
  pure outcome

unfoldable pub buy_codes_user :
    List String → ℤ → ℤ → String → Actor → Option String → Emby → Exec Db ServiceResult
unfolding buy_codes
buy_codes_user codes days cost maximum_level actor key user = do
  denied ← above_level user.lv maximum_level
  let balance = or_zero user.iv
  if denied
      then (pure (result "level_denied" []))
      else if ltb_ℤ balance cost
      then (pure (result "insufficient_balance" (("balance", num balance) ∷ [])))
      else buy_codes user codes days cost (balance -ℤ cost) actor key

-- `purchase_registration_codes`
unfoldable pub purchase_registration_codes :
    ℤ → List String → ℤ → ℤ → String → Actor → Option String → Exec Db ServiceResult
unfolding on_user buy_codes_user
purchase_registration_codes tg codes days cost maximum_level actor key =
    on_user tg "code.purchase.registration" key "no_user"
      (buy_codes_user codes days cost maximum_level actor key)
