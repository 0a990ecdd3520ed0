-- ===== src/Partitions/Tests.antt =====
-- Runs of the partition service on one code, and the theorems at these inputs.
use sakura_embyboss.Prelude.{
  List, max, ℕ, ◌≤◌, ◌+◌, ◌*◌, pos, String, ◌≡◌, refl, none, some, [], ◌∷◌, arith, first, replace,
  str_append,
}
use sakura_embyboss.Exec.{ok}
use sakura_embyboss.Database.{Db, result, Emby, get_user, PartitionCode, PartitionGrant}
use sakura_embyboss.Operations.{audit}
use sakura_embyboss.Partitions.Release.{released_is_free}
use sakura_embyboss.Partitions.{
  log_reserved, save_reserved, get_reservation, get_partition_code, release_reservation,
  reservation_data, reserve_code, take_code, with_account, get_grant,
}
use sakura_embyboss.PartitionGrants.{start_from, complete_grant}
use sakura_embyboss.Partitions.Redeem.{redemption_twice}
use sakura_embyboss.Codes.Redeem.{add_days, in_calendar}
use sakura_embyboss.PartitionGrants.{complete_redemption, log_granted, drop_code}
use sakura_embyboss.Operations.{event, save_idempotent_result, find_saved}
use sakura_embyboss.Database.{text, time, from_dict, to_dict, ServiceResult}
use sakura_embyboss.Prelude.{replace, ◌+ℤ◌, str_int}
use sakura_embyboss.Partitions.Reserve.{Attempt, attempt_all, reservation_is_exclusive}
use sakura_embyboss.Partitions.Grant.{expiry, Extended, complete_grant_lem}
use sakura_embyboss.Points.Tests.{admin, db as empty, user}

abbrev code : PartitionCode
code = record {
  code = "p1";
  partition = "4k";
  duration_days = pos 30;
  status = "available";
  reserved_by = none;
  reserved_at = none;
  reservation_token = none;
}

abbrev friend : Emby
friend = record user { tg = pos 8; embyid = some "e8" }

abbrev old_grant : PartitionGrant
old_grant = record {
  tg = pos 7;
  embyid = some "e7";
  embyname = none;
  partition = "4k";
  expires_at = 5000;
  status = "active";
  code = none;
  created_at = 1;
  updated_at = 1;
}

abbrev db : Db
db = record empty {
  users = user ∷ friend ∷ [];
  partition_codes = code ∷ [];
  grants = old_grant ∷ [];
}

abbrev fingerprint : String → String
fingerprint code_value = str_append "#" code_value

-- The state after a reservation.
abbrev held : Db
held = (reserve_code fingerprint "p1" (pos 7) admin 1000 "k1" db).1

reserved :
    (reserve_code fingerprint "p1" (pos 7) admin 1000 "k1" db).0
    ≡ ok (result "ok" (reservation_data "k1" code user))
unfolding reserve_code take_code save_reserved log_reserved audit first replace
reserved = refl

friend_known : with_account (get_user (pos 8) db) ≡ some friend
unfolding first
friend_known = refl

-- The other user tries first a code that is not there.
abbrev others : List Attempt
others = record { value = "p2"; tg = pos 8; actor = admin; now = 1500; token = "k3" } ∷ []

reservation_is_exclusive_example :
    let after =
      attempt_all fingerprint others (reserve_code fingerprint "p1" (pos 7) admin 1000 "k1" db).1 in
    reserve_code fingerprint "p1" (pos 8) admin 2000 "k2" after
    ≡ (ok (result "code_busy" []), after)
reservation_is_exclusive_example =
    reservation_is_exclusive fingerprint "p1" "k1" "k2" (pos 7) (pos 8) admin admin 1000 2000 db
      (result "ok" (reservation_data "k1" code user)) friend others reserved refl refl refl
      friend_known (omega arith) ((refl, omega arith), tt)

no_reservation : get_reservation "k1" db ≡ none
unfolding first
no_reservation = refl

no_other : get_reservation "k2" db ≡ none
unfolding first
no_other = refl

released_is_free_example :
    let given = release_reservation fingerprint "k1" (pos 7) admin "late" held in
    (release_reservation fingerprint "k1" (pos 8) admin "late" held
      ≡ (ok (result "reservation_invalid" []), held))
    × (given.0 ≡ ok (result "ok" []))
    × ((c : PartitionCode) × (get_partition_code "p1" db ≡ some c)
        × ((reserve_code fingerprint "p1" (pos 8) admin 1500 "k2" given.1).0
            ≡ ok (result "ok" (reservation_data "k2" c friend))))
released_is_free_example =
    released_is_free fingerprint "p1" "k1" "k2" "late" (pos 7) (pos 8) admin admin 1000 1500 db
      (result "ok" (reservation_data "k1" code user)) friend no_reservation no_other reserved refl
      refl refl friend_known

abbrev extended : ℕ
extended = max 1000 (expiry (get_grant (pos 7) "4k" db)) + 30 * 86400000000

soon : start_from (get_grant (pos 7) "4k" db) 1000 + 30 * 86400000000 ≤ 315537897599999999
unfolding first
soon = omega arith

complete_grant_lem_example :
    ((complete_grant code (pos 7) user 1000 db).0 ≡ ok extended)
    × ((g : PartitionGrant) × (get_grant (pos 7) "4k" (complete_grant code (pos 7) user 1000 db).1
          ≡ some g)
        × Extended code (pos 7) user extended g)
complete_grant_lem_example = complete_grant_lem code (pos 7) user 1000 30 db refl soon

-- The redemption of the reservation.
abbrev answer : ServiceResult
answer = result "ok" (("partition", text "4k") ∷ ("expires_at", time 2592000005000) ∷ [])

user_known : with_account (get_user (pos 7) held) ≡ some user
unfolding reserve_code take_code save_reserved log_reserved audit first
user_known = refl

redeemed : (complete_redemption fingerprint "k1" (pos 7) admin 2000 held).0 ≡ ok answer
unfolding complete_redemption complete_grant log_granted add_days in_calendar drop_code reserve_code
    take_code save_reserved log_reserved audit event save_idempotent_result find_saved first replace
    ◌+ℤ◌ str_int
redeemed = refl

redemption_twice_example :
    complete_redemption fingerprint "k1"
      (pos 7)
      admin
      2000
      (complete_redemption fingerprint "k1" (pos 7) admin 2000 held).1
    ≡ (
      ok (from_dict (to_dict answer)),
      (complete_redemption fingerprint "k1" (pos 7) admin 2000 held).1,
    )
redemption_twice_example =
    redemption_twice fingerprint "k1" (pos 7) admin 2000 held user answer user_known redeemed refl
