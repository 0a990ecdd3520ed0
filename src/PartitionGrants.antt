-- ===== src/PartitionGrants.antt =====
-- `complete_redemption` of application/partition_service.py and `complete_grant` of
-- repositories/partitions.py: a reserved code becomes, or extends, a grant.
use sakura_embyboss.Prelude.{
  ℤ, ltb, String, Option, none, some, List, [], ◌∷◌, eq_string, eq_int, if◌then◌else◌, truthy,
  replace, str_append, str_int,
}
use sakura_embyboss.Exec.{Exec, pure, gets, modify, transaction, ◌>>=◌, ◌>>◌}
use sakura_embyboss.Database.{
  Db, DateTime, num, text, time, Actor, ServiceResult, result, to_dict, from_dict, Emby, get_user,
  PartitionCode, PartitionGrant,
}
use sakura_embyboss.Operations.{get_idempotent_result, save_idempotent_result, audit, event}
use sakura_embyboss.Codes.Redeem.{add_days}
use sakura_embyboss.Partitions.{
  is_code, get_grant, get_reservation, is_grant, with_account, valid_reservation,
}

-- `grant.expires_at if grant and grant.expires_at > now else now`
abbrev pub start_from : Option PartitionGrant → DateTime → DateTime
start_from none now = now
start_from (some g) now = if ltb now g.expires_at then g.expires_at else now

-- `embyname or grant.embyname`
abbrev pub name_or : Option String → Option String → Option String
name_or name old = if truthy name then name else old

-- The grant after a redemption.
abbrev pub granted :
    PartitionCode → ℤ → Emby → DateTime → DateTime → Option PartitionGrant → PartitionGrant
granted r tg user now expires_at none = record {
  tg = tg;
  embyid = user.embyid;
  embyname = user.name;
  partition = r.partition;
  expires_at = expires_at;
  status = "active";
  code = some r.code;
  created_at = now;
  updated_at = now;
}
granted r tg user now expires_at (some g) = record g {
  embyid = user.embyid;
  embyname = name_or user.name g.embyname;
  expires_at = expires_at;
  status = "active";
  code = some r.code;
  updated_at = now;
}

abbrev pub put_grant :
    ℤ → String → PartitionGrant → Option PartitionGrant → List PartitionGrant → List PartitionGrant
put_grant tg partition g none rows = g ∷ rows
put_grant tg partition g (some old) rows = replace (is_grant tg partition) g rows

-- `session.delete(record)`
unfoldable pub drop_code : String → List PartitionCode → List PartitionCode
drop_code value [] = []
drop_code value (r ∷ rs) = if is_code value r then rs else r ∷ drop_code value rs

abbrev pub grant_until :
    PartitionCode → ℤ → Emby → DateTime → Option PartitionGrant → DateTime → Exec Db DateTime
grant_until r tg user now old expires_at =
    modify (λ (s : Db). record s {
      grants = put_grant tg r.partition (granted r tg user now expires_at old) old s.grants;
      partition_codes = drop_code r.code s.partition_codes;
    })
    >> pure expires_at

abbrev pub extend_grant :
    PartitionCode → ℤ → Emby → DateTime → Option PartitionGrant → Exec Db DateTime
extend_grant r tg user now old =
    add_days (start_from old now) r.duration_days >>= grant_until r tg user now old

-- `complete_grant`
unfoldable pub complete_grant : PartitionCode → ℤ → Emby → DateTime → Exec Db DateTime
complete_grant r tg user now = gets (get_grant tg r.partition) >>= extend_grant r tg user now

abbrev pub redeem_scope : String
redeem_scope = "partition_code.redeem"

abbrev pub reservation_key : String → Option String
reservation_key token = some (str_append "reservation:" token)

unfoldable pub log_granted :
    (String → String) → String → ℤ → Actor → PartitionCode → DateTime → Exec Db ServiceResult
unfolding audit event
log_granted fingerprint token tg actor r expires_at = do
  audit actor redeem_scope "partition_grant"
      (some (str_append (str_int tg) (str_append ":" r.partition))) "success"
      (some (
        ("tg", num tg)
        ∷ ("partition", text r.partition)
        ∷ ("code_fingerprint", text (fingerprint r.code))
        ∷ ("expires_at", time expires_at)
        ∷ []))
  event "partition.changed" "user" (some (str_int tg))
      (("tg", num tg) ∷ ("partition", text r.partition) ∷ ("expires_at", time expires_at) ∷ [])
  let outcome = result "ok" (("partition", text r.partition) ∷ ("expires_at", time expires_at) ∷ [])
  save_idempotent_result redeem_scope (reservation_key token) (to_dict outcome)
  pure outcome

abbrev pub redeem_reserved :
    (String → String)
    → String
    → ℤ
    → Actor
    → DateTime
    → Emby
    → Option PartitionCode
    → Exec Db ServiceResult
redeem_reserved fingerprint token tg actor now user none = pure (result "reservation_invalid" [])
redeem_reserved fingerprint token tg actor now user (some r) =
    complete_grant r tg user now >>= log_granted fingerprint token tg actor r

abbrev pub redeem_or_replay :
    (String → String)
    → String
    → ℤ
    → Actor
    → DateTime
    → Emby
    → Option ServiceResult
    → Exec Db ServiceResult
redeem_or_replay fingerprint token tg actor now user (some saved) = pure (from_dict saved)
redeem_or_replay fingerprint token tg actor now user none =
    gets (λ db. valid_reservation tg (get_reservation token db))
    >>= redeem_reserved fingerprint token tg actor now user

abbrev pub complete_user :
    (String → String) → String → ℤ → Actor → DateTime → Option Emby → Exec Db ServiceResult
complete_user fingerprint token tg actor now none = pure (result "no_account" [])
complete_user fingerprint token tg actor now (some user) =
    get_idempotent_result redeem_scope (reservation_key token)
    >>= redeem_or_replay fingerprint token tg actor now user

-- `complete_redemption`
unfoldable pub complete_redemption :
    (String → String) → String → ℤ → Actor → DateTime → Exec Db ServiceResult
unfolding complete_grant log_granted
complete_redemption fingerprint token tg actor now =
    transaction
      (gets (λ db. with_account (get_user tg db)) >>= complete_user fingerprint token tg actor now)
