-- ===== src/Points/CheckIn.antt =====
-- `check_in` of application/point_service.py: one reward a day.
use sakura_embyboss.Prelude.{
  ℤ, String, Bool, true, false, ◌≡◌, ◌≤◌, refl, sym, ◌∙◌, ap, inl, inr, Option, some, [], eq_string,
  Bool-cases, arith, some_inj,
}
use sakura_embyboss.Exec.{ok, bind_ok, bind_err}
use sakura_embyboss.Database.{Db, DateTime, Actor, ServiceResult, result, is_ok, Emby, get_user}
use sakura_embyboss.Points.{
  iv, checked_fields, check_in, checked_in, check_in_user, check_in_level, level_denied, date,
}
use sakura_embyboss.Points.Effects.{check_in_change, level_denied_cases}
use sakura_embyboss.Points.Calls.{run, checks_in, acceptance_is_posting}
use sakura_embyboss.Points.Audit.{Posted-user}
use sakura_embyboss.Points.Fresh.{IsNew, on_user_new, not_ok}

check_in_level_refused :
    (db : Db) (u : Emby) (reward : ℤ) (now : DateTime) (actor : Actor) (key : Option String)
    (denied : Bool) (r : ServiceResult)
    → checked_in u.ch now ≡ true
    → (check_in_level u reward now actor key denied db).0 ≡ ok r
    → is_ok r ≡ true
    → ⊥
unfolding check_in_level
check_in_level_refused db u reward now actor key true r seen h good =
    not_ok {x = result "level_denied" []} refl refl h good
check_in_level_refused db u reward now actor key false r seen h good =
    not_ok {x = result "already_checked_in" (checked_fields u.ch)} (rw (seen, check_in_level)) refl
      h good

check_in_user_refused :
    (db : Db) (u : Emby) (reward : ℤ) (now : DateTime) (actor : Actor) (maximum key : Option String)
    (r : ServiceResult)
    → checked_in u.ch now ≡ true
    → (check_in_user u reward now actor maximum key db).0 ≡ ok r
    → is_ok r ≡ true
    → ⊥
unfolding check_in_user
check_in_user_refused db u reward now actor maximum key r seen h good =
    let rest = check_in_level u reward now actor key in
    elim (level_denied_cases u.lv maximum db) [
      | inl (x, e) ↦
          cc (sym (ap (λ q. q.0) (bind_err (level_denied u.lv maximum) rest db db x e)) ∙ h)
      | inr (denied, e) ↦
          check_in_level_refused db u reward now actor key denied r seen
            (sym (ap (λ q. q.0) (bind_ok (level_denied u.lv maximum) rest db db denied e)) ∙ h) good
    ]

-- Who has checked in on the day, or later, gets no new reward.
check_in_refused :
    (tg reward : ℤ) (now : DateTime) (actor : Actor) (maximum key : Option String) (db : Db)
    (u : Emby) (r : ServiceResult)
    → get_user tg db ≡ some u
    → checked_in u.ch now ≡ true
    → (check_in tg reward now actor maximum key db).0 ≡ ok r
    → IsNew r
    → ⊥
unfolding check_in
check_in_refused tg reward now actor maximum key db u r found seen h new =
    let (v, e, b) = on_user_new tg "points.check_in" key "user_not_found" _ db r refl h new in
    let same : v ≡ u = some_inj (sym e ∙ found) in
    check_in_user_refused db v reward now actor maximum key r (rw same seen) b new.0

-- After an accepted check-in, a later call for a time on the same day or an earlier one is never a
-- new acceptance: whatever its reward and its key, an answer "ok" is a repetition of an old result.
pub check_in_once :
    (tg reward reward' : ℤ) (now now' : DateTime) (actor actor' : Actor)
    (maximum maximum' key key' : Option String) (db : Db) (r r' : ServiceResult)
    → date now' ≤ date now
    → (check_in tg reward now actor maximum key db).0 ≡ ok r
    → is_ok r ≡ true
    → r.replayed ≡ false
    → (check_in tg reward' now' actor' maximum' key'
        (check_in tg reward now actor maximum key db).1).0
      ≡ ok r'
    → is_ok r' ≡ true
    → r'.replayed ≡ true
unfolding run
check_in_once tg reward reward' now now' actor actor' maximum maximum' key key' db r r' before h
      good fresh h' good' =
    let out = check_in tg reward now actor maximum key db in
    let p = acceptance_is_posting (checks_in tg reward now actor maximum key) db r h good fresh in
    let found = Posted-user db out.1 tg iv reward (check_in_change reward now) p in
    let seen : checked_in p.user'.ch now' ≡ true = rw p.changed (ground arith) in
    elim (Bool-cases r'.replayed) [
      | inl e ↦ e
      | inr e ↦ absurd (
          check_in_refused tg reward' now' actor' maximum' key' out.1 p.user' r' found seen h'
            (good', e))
    ]
