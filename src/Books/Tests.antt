-- ===== src/Books/Tests.antt =====
-- A run of several services, and the theorems at these inputs.
use sakura_embyboss.Prelude.{some, pos, String, true, none, List, [], ◌∷◌, str_append}
use sakura_embyboss.Database.{Db, Code}
use sakura_embyboss.Codes.{renewal}
use sakura_embyboss.Codes.Redeem.{Redemption}
use sakura_embyboss.Users.Registration.{Registration}
use sakura_embyboss.Points.Audit.{IsAudited}
use sakura_embyboss.Points.Mirror.{IsMirrored}
use sakura_embyboss.Points.Calls.{checks_in, purchases}
use sakura_embyboss.Points.Tests.{admin, db, gift, payment, opening, db-IsAudited, db-IsMirrored}
use sakura_embyboss.Books.Services.{
  ServiceCall, points, redeems, registers, serve_all, serve_all-IsAudited, serve_all-IsMirrored,
}

abbrev fingerprint : String → String
fingerprint code_value = str_append "#" code_value

abbrev code : Code
code = record {
  code = "Sakura-30-Renew_abc";
  tg = some (pos 1);
  us = some (pos 30);
  used = none;
  usedtime = none;
  issuer_account_id = none;
  used_by_account_id = none;
  status = some "active";
  expires_at = none;
}

abbrev start : Db
start = record db { codes = code ∷ [] }

start-IsAudited : IsAudited opening start
start-IsAudited = record { adds_up = db-IsAudited.adds_up }

start-IsMirrored : IsMirrored start
start-IsMirrored = record {
  named = db-IsMirrored.named;
  apart = db-IsMirrored.apart;
  held = db-IsMirrored.held;
}

abbrev redemption : Redemption
redemption = record {
  kind = renewal;
  code_value = "Sakura-30-Renew_abc";
  tg = pos 7;
  logo = "Sakura";
  actor = admin;
  idempotency_key = none;
  now = 1000;
}

abbrev account : Registration
account = record {
  tg = pos 7;
  embyid = "e9";
  name = "ann";
  pwd = "secret";
  pwd2 = "1234";
  expires_at = 5000;
  consume_qualification = true;
  actor = admin;
  now = 2000;
}

abbrev script : List ServiceCall
script =
    points gift
    ∷ points (checks_in (pos 7) (pos 3) 1000 admin none none)
    ∷ redeems fingerprint redemption
    ∷ points payment
    ∷ registers account
    ∷ points gift
    ∷ points (purchases (pos 7) "a" (pos 6) admin "level" none)
    ∷ []

serve_all-IsAudited_example : IsAudited opening (serve_all script start)
serve_all-IsAudited_example = serve_all-IsAudited opening script start start-IsAudited

serve_all-IsMirrored_example : IsMirrored (serve_all script start)
serve_all-IsMirrored_example = serve_all-IsMirrored script start start-IsMirrored
