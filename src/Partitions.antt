-- ===== src/Partitions.antt =====
-- application/partition_service.py and repositories/partitions.py: the codes of a partition, their
-- reservation for five minutes, and the grants. `now` is the clock reading, `new_token` the fresh
-- `uuid4()`, and `fingerprint` is `secret_fingerprint`.
mod Tests
pub mod Reserve
pub mod Release
pub mod Redeem
pub mod Grant
use sakura_embyboss.Prelude.{
  is_some, ℕ, ◌+◌, ℤ, ltb, leb, String, Bool, true, false, not, ◌&&◌, Option, none, some, List, [],
  ◌∷◌, ◌==◌, eq_string, eq_int, if◌then◌else◌, truthy, first, replace, str_append, str_int,
}
use sakura_embyboss.Exec.{
  raise, integrity_error, Exec, pure, gets, modify, transaction, ◌>>=◌, ◌>>◌,
}
use sakura_embyboss.Database.{
  Db, DateTime, Fields, num, text, time, Actor, ServiceResult, result, to_dict, from_dict, Emby,
  get_user, PartitionCode, PartitionGrant,
}
use sakura_embyboss.Operations.{get_idempotent_result, save_idempotent_result, audit, event}
use sakura_embyboss.Codes.{text_value}
use sakura_embyboss.Codes.Redeem.{add_days}

-- `RESERVATION_TTL`, five minutes
abbrev pub reservation_ttl : ℕ
reservation_ttl = 300000000

abbrev pub is_code : String → PartitionCode → Bool
is_code value r = r.code == value

-- `PartitionRepository.get_code_for_update`
abbrev pub get_partition_code : String → Db → Option PartitionCode
get_partition_code value db = first (is_code value) db.partition_codes

abbrev pub token_is : String → Option String → Bool
token_is token none = false
token_is token (some t) = t == token

abbrev pub has_token : String → PartitionCode → Bool
has_token token r = token_is token r.reservation_token

-- `get_reservation_for_update`
abbrev pub get_reservation : String → Db → Option PartitionCode
get_reservation token db = first (has_token token) db.partition_codes

abbrev pub is_grant : ℤ → String → PartitionGrant → Bool
is_grant tg partition g = (g.tg == tg) && (g.partition == partition)

-- `get_grant_for_update`
abbrev pub get_grant : ℤ → String → Db → Option PartitionGrant
get_grant tg partition db = first (is_grant tg partition) db.grants

-- The user, if there is one with an account.
abbrev pub with_account : Option Emby → Option Emby
with_account none = none
with_account (some u) = if truthy u.embyid then some u else none

abbrev pub save_partition_code : PartitionCode → Exec Db (Unit {0})
save_partition_code r =
    modify (λ (s : Db). record s { partition_codes = replace (is_code r.code) r s.partition_codes })

abbrev pub is_stale_since : DateTime → Option DateTime → Bool
is_stale_since now none = true
is_stale_since now (some t) = leb (t + reservation_ttl) now

abbrev pub is_owner : ℤ → Option ℤ → Bool
is_owner tg none = false
is_owner tg (some owner) = owner == tg

abbrev pub reservation_data : String → PartitionCode → Emby → Fields
reservation_data token r user =
    ("reservation_token", text token)
    ∷ ("partition", text r.partition)
    ∷ ("embyid", text_value user.embyid)
    ∷ ("embyname", text_value user.name)
    ∷ []

abbrev pub token_text : Option String → String
token_text none = ""
token_text (some t) = t

-- The code once it is reserved.
abbrev pub reserved_row : ℤ → DateTime → String → PartitionCode → PartitionCode
reserved_row tg now token r = record r {
  status = "reserved";
  reserved_by = some tg;
  reserved_at = some now;
  reservation_token = some token;
}

-- Another code with the token, which is unique in the table.
abbrev pub clashing_token : String → String → PartitionCode → Bool
clashing_token token code_value r = has_token token r && not (r.code == code_value)

-- The write of a reservation at the flush.
unfoldable pub save_reserved : String → PartitionCode → Exec Db (Unit {0})
save_reserved token r db =
    if is_some (first (clashing_token token r.code) db.partition_codes)
    then raise integrity_error db
    else save_partition_code r db

unfoldable pub log_reserved :
    (String → String) → String → ℤ → Actor → String → Emby → PartitionCode → Exec Db ServiceResult
unfolding audit
log_reserved fingerprint code_value tg actor token user r = do
  audit actor "partition_code.reserve" "partition_code" (some (fingerprint code_value)) "success"
      (some (("tg", num tg) ∷ ("partition", text r.partition) ∷ []))
  pure (result "ok" (reservation_data token r user))

unfoldable pub take_code :
    (String → String)
    → String
    → ℤ
    → Actor
    → DateTime
    → String
    → Emby
    → PartitionCode
    → Exec Db ServiceResult
unfolding log_reserved save_reserved
take_code fingerprint code_value tg actor now token user r =
    save_reserved token (reserved_row tg now token r)
    >> log_reserved fingerprint code_value tg actor token user r

-- A reservation that is not stale stands.
abbrev pub stands : DateTime → PartitionCode → Bool
stands now r = (r.status == "reserved") && not (is_stale_since now r.reserved_at)

abbrev pub reserve_found :
    (String → String)
    → String
    → ℤ
    → Actor
    → DateTime
    → String
    → Emby
    → Option PartitionCode
    → Exec Db ServiceResult
reserve_found fingerprint code_value tg actor now token user none = pure (result "invalid_code" [])
reserve_found fingerprint code_value tg actor now token user (some r) =
    if stands now r
    then (if is_owner tg r.reserved_by
        then pure
            (from_dict (result "ok" (reservation_data (token_text r.reservation_token) r user)))
        else pure (result "code_busy" []))
    else take_code fingerprint code_value tg actor now token user r

abbrev pub reserve_user :
    (String → String) → String → ℤ → Actor → DateTime → String → Option Emby → Exec Db ServiceResult
reserve_user fingerprint code_value tg actor now token none = pure (result "no_account" [])
reserve_user fingerprint code_value tg actor now token (some user) =
    gets (get_partition_code code_value)
    >>= reserve_found fingerprint code_value tg actor now token user

-- `reserve_code`
unfoldable pub reserve_code :
    (String → String) → String → ℤ → Actor → DateTime → String → Exec Db ServiceResult
unfolding take_code
reserve_code fingerprint code_value tg actor now token = transaction (
    gets (λ db. with_account (get_user tg db))
    >>= reserve_user fingerprint code_value tg actor now token)

-- `not record or record.status != "reserved" or record.reserved_by != tg`
abbrev pub valid_reservation : ℤ → Option PartitionCode → Option PartitionCode
valid_reservation tg none = none
valid_reservation tg (some r) =
    if (r.status == "reserved") && is_owner tg r.reserved_by then some r else none

unfoldable pub free_code :
    (String → String) → ℤ → Actor → String → PartitionCode → Exec Db ServiceResult
unfolding audit
free_code fingerprint tg actor reason r = do
  save_partition_code (record r {
    status = "available";
    reserved_by = none;
    reserved_at = none;
    reservation_token = none;
  })
  audit actor "partition_code.release" "partition_code" (some (fingerprint r.code)) "failed"
      (some (("tg", num tg) ∷ ("reason", text reason) ∷ []))
  pure (result "ok" [])

abbrev pub release_found :
    (String → String) → ℤ → Actor → String → Option PartitionCode → Exec Db ServiceResult
release_found fingerprint tg actor reason none = pure (result "reservation_invalid" [])
release_found fingerprint tg actor reason (some r) = free_code fingerprint tg actor reason r

-- `release_reservation`
unfoldable pub release_reservation :
    (String → String) → String → ℤ → Actor → String → Exec Db ServiceResult
unfolding free_code
release_reservation fingerprint token tg actor reason = transaction (
    gets (λ db. valid_reservation tg (get_reservation token db))
    >>= release_found fingerprint tg actor reason)
