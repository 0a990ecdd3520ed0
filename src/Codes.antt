-- ===== src/Codes.antt =====
-- application/code_service.py and repositories/codes.py: the codes of registration, renewal and
-- whitelist. `now` is the clock reading of the call, `fingerprint` is `secret_fingerprint`
-- (domain/security.py, a SHA-256 digest), and `suffix i` is the i-th random text of ten characters
-- that `secrets.choice` makes.
mod Tests
pub mod Redeem
pub mod Answers
pub mod Moves
pub mod Once
pub mod Days
use sakura_embyboss.Prelude.{
  ℕ, zero, suc, ℤ, pos, negsuc, ◌+ℤ◌, ◌-ℤ◌, neg, ltb_ℤ, leb_ℤ, ◌+◌, ◌*◌, ltb, leb, or_zero, String,
  Bool, true, false, not, ◌&&◌, ◌||◌, Option, none, some, List, [], ◌∷◌, map, ◌==◌, eq_string,
  eq_int, if◌then◌else◌, truthy, first, replace, str_append, str_int, str_contains, str_before,
  str_len, is_some, length,
}
use sakura_embyboss.Exec.{
  Exec, pure, raise, gets, modify, transaction, integrity_error, overflow_error, type_error, ◌>>=◌,
  ◌>>◌,
}
use sakura_embyboss.Database.{
  Db, DateTime, Value, null, num, text, time, Fields, Actor, ServiceResult, result, to_dict, Emby,
  Code, has_code, get_code, by_legacy_tg,
}
use sakura_embyboss.Operations.{
  save_idempotent_result, audit, event, Posting, point_transaction, account_id_of,
}
use sakura_embyboss.Points.{save_user, on_user}

pub data Kind : Type 0 where
  registration renewal whitelist : Kind

abbrev pub kind_name : Kind → String
kind_name registration = "registration"
kind_name renewal = "renewal"
kind_name whitelist = "whitelist"

-- The dict of `_serialize`.
pub record CodeView : Type 0 where
  pub code : String
  pub kind : Kind
  pub days : ℤ
  pub status : String
  pub issuer_tg : Option ℤ
  pub issuer_account_id : Option String
  pub used_by_tg : Option ℤ
  pub used_by_account_id : Option String
  pub used_at : Option DateTime
  pub expires_at : Option DateTime

-- `expires_at and expires_at <= now`
abbrev pub is_over : DateTime → Option DateTime → Bool
is_over now none = false
is_over now (some t) = leb t now

-- `row.status or ("used" if row.used is not None else "active")`
abbrev pub status_or : Option ℤ → Option String → String
status_or used none = if is_some used then "used" else "active"
status_or used (some s) = if s == "" then (if is_some used then "used" else "active") else s

unfoldable pub code_kind : String → Kind
code_kind code =
    if str_contains "Whitelist" code
    then whitelist
    else if str_contains "Renew" code
    then renewal
    else registration

unfoldable pub serialize : DateTime → Code → CodeView
unfolding code_kind
serialize now row = record {
  code = row.code;
  kind = code_kind row.code;
  days = or_zero row.us;
  status =
      if is_some row.used
      then "used"
      else if is_over now row.expires_at
      then "expired"
      else status_or row.used row.status;
  issuer_tg = row.tg;
  issuer_account_id = row.issuer_account_id;
  used_by_tg = row.used;
  used_by_account_id = row.used_by_account_id;
  used_at = row.usedtime;
  expires_at = row.expires_at;
}

-- `ServiceResult` with codes as its data.
pub record CodeResult : Type 0 where
  pub status : String
  pub items : List CodeView

-- One insert at the flush; the code is the primary key.
unfoldable pub add_row : Code → Exec Db (Unit {0})
add_row c db =
    if is_some (get_code c.code db)
    then raise integrity_error db
    else modify (λ (s : Db). record s { codes = c ∷ s.codes }) db

-- `CodeRepository.add_rows`
unfoldable pub add_rows : List Code → Exec Db (Unit {0})
unfolding add_row
add_rows [] = pure tt
add_rows (c ∷ cs) = do add_row c; add_rows cs

-- The text of the i-th new code.
unfoldable pub code_text : Kind → String → ℤ → String → String
code_text whitelist logo days suffix = str_append logo (str_append "-Whitelist_" suffix)
code_text renewal logo days suffix =
    str_append logo (str_append "-" (str_append (str_int days) (str_append "-Renew_" suffix)))
code_text registration logo days suffix =
    str_append logo (str_append "-" (str_append (str_int days) (str_append "-Register_" suffix)))

-- The loop of `generate`, from index `i` on.
unfoldable pub code_values : Kind → String → ℤ → (ℕ → String) → ℕ → ℕ → List String
unfolding code_text
code_values kind logo days suffix i zero = []
code_values kind logo days suffix i (suc n) =
    code_text kind logo days (suffix i) ∷ code_values kind logo days suffix (suc i) n

abbrev pub too_long : List String → Bool
too_long [] = false
too_long (v ∷ vs) = ltb 50 (str_len v) || too_long vs

abbrev pub is_whitelist : Kind → Bool
is_whitelist whitelist = true
is_whitelist _ = false

-- `generate` makes rows of this form.
abbrev pub new_row : Kind → ℤ → Option ℤ → Option String → Option DateTime → String → Code
new_row kind days issuer_tg issuer_account_id expires_at value = record {
  code = value;
  tg = issuer_tg;
  us = some (if is_whitelist kind then pos 0 else days);
  used = none;
  usedtime = none;
  issuer_account_id = issuer_account_id;
  used_by_account_id = none;
  status = some "active";
  expires_at = expires_at;
}

abbrev pub date_value : Option DateTime → Value
date_value none = null
date_value (some t) = time t

abbrev pub int_value : Option ℤ → Value
int_value none = null
int_value (some n) = num n

abbrev pub text_value : Option String → Value
text_value none = null
text_value (some s) = text s

abbrev pub bad_days : Kind → ℤ → Bool
bad_days kind days = not (is_whitelist kind) && (ltb_ℤ days (pos 1) || ltb_ℤ (pos 3650) days)

-- `generate` with the rows it has made.
unfoldable pub store_rows :
    Kind → ℤ → ℕ → Option DateTime → Actor → DateTime → List Code → Exec Db CodeResult
unfolding add_rows audit event serialize
store_rows kind days count expires_at actor now rows = transaction do
  add_rows rows
  audit actor "code.generate" "registration_code" none "success" (
      some (
        ("kind", text (kind_name kind))
        ∷ ("days", num days)
        ∷ ("count", num (pos count))
        ∷ ("expires_at", date_value expires_at)
        ∷ []))
  event "code.generated" "registration_code" none
      (("kind", text (kind_name kind)) ∷ ("count", num (pos count)) ∷ [])
  pure (record { status = "ok"; items = map (serialize now) rows })

abbrev pub refused : String → CodeResult
refused status = record { status = status; items = [] }

-- `generate`; an expiry enters without its zone.
unfoldable pub generate :
    Kind
    → ℤ
    → ℤ
    → String
    → Option ℤ
    → Option String
    → Option DateTime
    → Actor
    → DateTime
    → (ℕ → String)
    → Exec Db CodeResult
unfolding code_values store_rows
generate kind days (negsuc n) logo issuer_tg issuer_account_id expires_at actor now suffix =
    pure (refused "invalid_parameters")
generate kind days (pos count) logo issuer_tg issuer_account_id expires_at actor now suffix =
    let values = code_values kind logo days suffix 0 count in
    if ltb count 1 || ltb 500 count || bad_days kind days || too_long values
    then (pure (refused "invalid_parameters"))
    else store_rows kind days count expires_at actor now
        (map (new_row kind days issuer_tg issuer_account_id expires_at) values)

-- The changed row at the flush.
abbrev pub save_code : Code → Exec Db (Unit {0})
save_code c = modify (λ (s : Db). record s { codes = replace (has_code c.code) c s.codes })

unfoldable pub revoke_row : (String → String) → Actor → DateTime → Code → Exec Db CodeResult
unfolding audit event serialize
revoke_row fingerprint actor now c = do
  save_code (record c { status = some "revoked" })
  audit actor "code.revoke" "registration_code" (some (fingerprint c.code)) "success" none
  event "code.updated" "registration_code" (some (fingerprint c.code))
      (("status", text "revoked") ∷ [])
  pure (record { status = "ok"; items = serialize now (record c { status = some "revoked" }) ∷ [] })

abbrev pub revoke_found : (String → String) → Actor → DateTime → Option Code → Exec Db CodeResult
revoke_found fingerprint actor now none = pure (refused "not_found")
revoke_found fingerprint actor now (some c) =
    if is_some c.used then (pure (refused "used")) else revoke_row fingerprint actor now c

-- `revoke`
unfoldable pub revoke : (String → String) → String → Actor → DateTime → Exec Db CodeResult
unfolding revoke_row
revoke fingerprint code_value actor now =
    transaction do found ← gets (get_code code_value); revoke_found fingerprint actor now found
