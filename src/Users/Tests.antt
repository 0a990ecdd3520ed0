-- ===== src/Users/Tests.antt =====
-- Runs of the user service, and the theorems at these inputs.
use sakura_embyboss.Prelude.{
  ℤ, pos, String, true, false, ◌≡◌, refl, none, some, List, [], ◌∷◌, first, str_append, str_int,
}
use sakura_embyboss.Exec.{ok}
use sakura_embyboss.Database.{by_legacy_tg, get_user, Account}
use sakura_embyboss.Operations.{audit, event}
use sakura_embyboss.Users.{
  Change, embyid, iv, lv, add_if_missing, add_account, log_ensured, new_account, ensured,
  ensure_user,
}
use sakura_embyboss.Users.Registration.{
  Registration, complete_registration, consume, log_registered,
}
use sakura_embyboss.Users.Consume.{Registers, HasAccount, registration_of_user}
use sakura_embyboss.Database.{Db, Emby, result, num, text}
use sakura_embyboss.Operations.{point_transaction, clashes}
use sakura_embyboss.Prelude.{replace, true}
use sakura_embyboss.Users.Ensure.{is_new, ensure_user_twice}
use sakura_embyboss.Points.Tests.{admin, db as empty, user}

abbrev uuid5 : String → String
uuid5 name = str_append "uuid:" name

-- A new user of Telegram.
abbrev nine : ℤ
nine = pos 9

nine_accepted :
    (ensure_user uuid5 nine admin empty).0 ≡ ok (ensured nine (new_account uuid5 nine) true)
unfolding ensure_user add_if_missing add_account log_ensured audit event first str_int
nine_accepted = refl

ensure_user_twice_example :
    let after = (ensure_user uuid5 nine admin empty).1 in
    (u : Emby) × (a : Account) × (get_user nine after ≡ some u)
    × (by_legacy_tg nine after ≡ some a)
    × (ensured nine (new_account uuid5 nine) true ≡ ensured nine a (is_new nine empty))
    × (ensure_user uuid5 nine admin after ≡ (ok (ensured nine a false), after))
ensure_user_twice_example =
    ensure_user_twice uuid5 nine admin empty (ensured nine (new_account uuid5 nine) true)
      nine_accepted

abbrev changes : List Change
changes = lv (some "b") ∷ embyid none ∷ iv (some (pos 3)) ∷ []

-- A user with thirty days and no account.
abbrev qualified : Db
qualified = record empty { users = record user { embyid = none; us = some (pos 30) } ∷ [] }

abbrev registration : Registration
registration = record {
  tg = pos 7;
  embyid = "e9";
  name = "ann";
  pwd = "secret";
  pwd2 = "1234";
  expires_at = 5000;
  consume_qualification = true;
  actor = admin;
  now = 1000;
}

registered :
    (complete_registration registration qualified).0
    ≡ ok (result "ok" (("tg", num (pos 7)) ∷ ("embyid", text "e9") ∷ []))
unfolding complete_registration consume log_registered point_transaction audit event clashes first
    replace str_int
registered = refl

registration_of_user_example :
    (u : Emby) × (Registers registration qualified u
        (complete_registration registration qualified).1
      × ((v : Emby) × (get_user (pos 7) (complete_registration registration qualified).1 ≡ some v)
          × HasAccount registration qualified u v))
registration_of_user_example =
    registration_of_user registration qualified
      (result "ok" (("tg", num (pos 7)) ∷ ("embyid", text "e9") ∷ [])) registered refl
