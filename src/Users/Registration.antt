-- ===== src/Users/Registration.antt =====
-- `complete_registration` of application/user_service.py.
use sakura_embyboss.Prelude.{
  true, false, ℤ, pos, neg, leb_ℤ, or_zero, String, Bool, ◌&&◌, Option, none, some, [], ◌∷◌, ◌==◌,
  eq_int, truthy, str_append, str_int,
}
use sakura_embyboss.Exec.{Exec, pure, gets, transaction, ◌>>=◌, ◌>>◌}
use sakura_embyboss.Database.{
  Db, DateTime, num, text, texts, Actor, ServiceResult, result, Emby, get_user,
}
use sakura_embyboss.Operations.{audit, event, Posting, point_transaction}
use sakura_embyboss.Points.{save_user}

-- The arguments of a call. `now` is the clock reading.
pub record Registration : Type 0 where
  pub tg : ℤ
  pub embyid : String
  pub name : String
  pub pwd : String
  pub pwd2 : String
  pub expires_at : DateTime
  pub consume_qualification : Bool
  pub actor : Actor
  pub now : DateTime

-- The row with its account, before the days are consumed.
abbrev pub bound : Registration → Emby → Emby
bound call user = record user {
  embyid = some call.embyid;
  name = some call.name;
  pwd = some call.pwd;
  pwd2 = some call.pwd2;
  lv = some "b";
  cr = some call.now;
  ex = some call.expires_at;
}

abbrev pub consume_posting : Registration → ℤ → Posting
consume_posting call days = record {
  tg = call.tg;
  balance_type = "registration_days";
  amount = neg days;
  balance_after = pos 0;
  reason = "registration_qualification_consumed";
  actor = call.actor;
  idempotency_key = some (
      str_append "registration-consume:"
        (str_append (str_int call.tg) (str_append ":" call.embyid)));
  metadata = some (("embyid", text call.embyid) ∷ []);
}

-- `if consumed_days: …`
abbrev pub post_days : Registration → ℤ → Bool → Exec Db (Unit {0})
post_days call days true = pure tt
post_days call days false = point_transaction (consume_posting call days)

-- `if consume_qualification: …`, with the row that the flush writes.
abbrev pub consume_if : Registration → Emby → Bool → Exec Db (Unit {0})
consume_if call user false = save_user (bound call user)
consume_if call user true =
    save_user (record (bound call user) { us = some (pos 0) })
    >> post_days call (or_zero user.us) (or_zero user.us == pos 0)

unfoldable pub consume : Registration → Emby → Exec Db (Unit {0})
consume call user = consume_if call user call.consume_qualification

unfoldable pub log_registered : Registration → Exec Db ServiceResult
unfolding audit event
log_registered call = do
  audit call.actor "user.registration.complete" "user" (some (str_int call.tg)) "success"
      (some (("embyid", text call.embyid) ∷ ("name", text call.name) ∷ []))
  event "user.updated" "user" (some (str_int call.tg)) (
      ("tg", num call.tg)
      ∷ ("changed_fields", texts ("embyid" ∷ "name" ∷ "lv" ∷ "cr" ∷ "ex" ∷ "us" ∷ []))
      ∷ [])
  pure (result "ok" (("tg", num call.tg) ∷ ("embyid", text call.embyid) ∷ []))

-- The body behind its two tests, whether the user has an account and whether the days lack.
abbrev pub register_if : Registration → Emby → Bool → Bool → Exec Db ServiceResult
register_if call user true lacking = pure (result "account_already_bound" [])
register_if call user false true = pure (result "no_qualification" [])
register_if call user false false = consume call user >> log_registered call

abbrev pub lacks_days : Registration → Emby → Bool
lacks_days call user = call.consume_qualification && leb_ℤ (or_zero user.us) (pos 0)

abbrev pub register : Registration → Option Emby → Exec Db ServiceResult
register call none = pure (result "user_not_found" [])
register call (some user) = register_if call user (truthy user.embyid) (lacks_days call user)

-- `complete_registration`
unfoldable pub complete_registration : Registration → Exec Db ServiceResult
unfolding consume log_registered
complete_registration call = transaction (gets (get_user call.tg) >>= register call)
