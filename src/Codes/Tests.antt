-- ===== src/Codes/Tests.antt =====
-- Runs of the code service on one code, and the theorem at these inputs.
use sakura_embyboss.Prelude.{
  first, refl, ◌≡◌, replace, str_before, str_int, ◌+ℤ◌, pos, ◌≤◌, String, none, some, [], ◌∷◌,
  str_append,
}
use sakura_embyboss.Exec.{ok}
use sakura_embyboss.Database.{Db, result, num, Code, get_code}
use sakura_embyboss.Codes.{registration}
use sakura_embyboss.Codes.Days.{Gives, registration_posts_days}
use sakura_embyboss.Points.{on_user}
use sakura_embyboss.Operations.{
  audit, event, point_transaction, save_idempotent_result, find_saved, clashes,
}
use sakura_embyboss.Codes.Redeem.{redeem, redeem_user, log_redeemed, Redemption}
use sakura_embyboss.Codes.Once.{room, wins, redeemed_once}
use sakura_embyboss.Points.Tests.{admin, db as empty, user}

abbrev code : Code
code = record {
  code = "7-30-Register_abc";
  tg = some (pos 1);
  us = some (pos 30);
  used = none;
  usedtime = none;
  issuer_account_id = none;
  used_by_account_id = none;
  status = some "active";
  expires_at = none;
}

abbrev db : Db
db = record empty { codes = code ∷ []; users = record user { embyid = none } ∷ [] }

abbrev call : Redemption
call = record {
  kind = registration;
  code_value = "7-30-Register_abc";
  tg = pos 7;
  logo = "Sakura";
  actor = admin;
  idempotency_key = none;
  now = 1000;
}

abbrev fingerprint : String → String
fingerprint code_value = str_append "#" code_value

redeemed_once_example :
    wins fingerprint "7-30-Register_abc" (call ∷ call ∷ []) db
    ≤ room (get_code "7-30-Register_abc" db)
redeemed_once_example = redeemed_once fingerprint "7-30-Register_abc" (call ∷ call ∷ []) db

days_given :
    (redeem fingerprint call db).0
    ≡ ok (result "ok" (("issuer_tg", num (pos 1)) ∷ ("days", num (pos 30)) ∷ []))
unfolding redeem redeem_user log_redeemed on_user audit event point_transaction
    save_idempotent_result find_saved clashes first replace str_before str_int ◌+ℤ◌
days_given = refl

registration_posts_days_example : Gives fingerprint call db (redeem fingerprint call db).1
registration_posts_days_example =
    registration_posts_days fingerprint call db
      (result "ok" (("issuer_tg", num (pos 1)) ∷ ("days", num (pos 30)) ∷ [])) refl days_given refl
