-- ===== src/Points/Calls.antt =====
-- Calls of the point service in any order, as the bot and the web API make them, and what holds of
-- every one of them.
use sakura_embyboss.Prelude.{
  ℤ, neg, String, Bool, true, false, ◌≡◌, refl, sym, ◌∙◌, ap, ◌⊎◌, inl, inr, Option, none, some,
  ◌==◌, eq_string, str_append,
}
use sakura_embyboss.Exec.{Exec, Result, ok, err, ok_inj}
use sakura_embyboss.Database.{
  Db, DateTime, Fields, Actor, ServiceResult, is_ok, from_dict, to_dict, Emby, get_user,
}
use sakura_embyboss.Operations.{find_saved}
use sakura_embyboss.Points.{Balance, iv, balance_field, adjust, check_in, purchase_level}
use sakura_embyboss.Points.Posted.{Posted, Effect, remembered, on_user_replay}
use sakura_embyboss.Points.Effects.{
  adjust_change, check_in_change, purchase_level_change, adjust-Effect, adjust_unknown,
  adjust_known, check_in-Effect, purchase_level-Effect,
}
use sakura_embyboss.Points.Audit.{Posted-user}

pub data Call : Type 0 where
  adjusts : ℤ → ℤ → String → String → Actor → Bool → Option String → Option Fields → Call
  checks_in : ℤ → ℤ → DateTime → Actor → Option String → Option String → Call
  purchases : ℤ → String → ℤ → Actor → String → Option String → Call

unfoldable pub run : Call → Exec Db ServiceResult
run (adjusts tg amount name reason actor negative key metadata) =
    adjust tg amount name reason actor negative key metadata
run (checks_in tg reward now actor maximum key) = check_in tg reward now actor maximum key
run (purchases tg level cost actor reason key) = purchase_level tg level cost actor reason key

abbrev pub user_of : Call → ℤ
user_of (adjusts tg amount name reason actor negative key metadata) = tg
user_of (checks_in tg reward now actor maximum key) = tg
user_of (purchases tg level cost actor reason key) = tg

abbrev pub scope_of : Call → String
scope_of (adjusts tg amount name reason actor negative key metadata) =
    str_append "points.adjust." name
scope_of (checks_in tg reward now actor maximum key) = "points.check_in"
scope_of (purchases tg level cost actor reason key) = str_append "points.purchase_level." level

abbrev pub key_of : Call → Option String
key_of (adjusts tg amount name reason actor negative key metadata) = key
key_of (checks_in tg reward now actor maximum key) = key
key_of (purchases tg level cost actor reason key) = key

abbrev pub or_coins : Option Balance → Balance
or_coins none = iv
or_coins (some field) = field

abbrev pub field_of : Call → Balance
field_of (adjusts tg amount name reason actor negative key metadata) = or_coins (balance_field name)
field_of (checks_in tg reward now actor maximum key) = iv
field_of (purchases tg level cost actor reason key) = iv

abbrev pub amount_of : Call → ℤ
amount_of (adjusts tg amount name reason actor negative key metadata) = amount
amount_of (checks_in tg reward now actor maximum key) = reward
amount_of (purchases tg level cost actor reason key) = neg cost

abbrev pub change_of : Call → Emby → Emby
change_of (adjusts tg amount name reason actor negative key metadata) =
    adjust_change (or_coins (balance_field name)) amount
change_of (checks_in tg reward now actor maximum key) = check_in_change reward now
change_of (purchases tg level cost actor reason key) = purchase_level_change level cost

abbrev pub CallEffect : Call → Db → Result ServiceResult × Db → Type 0
CallEffect c db =
    Effect db (scope_of c) (key_of c) (user_of c) (field_of c) (amount_of c) (change_of c)

adjusts-Effect :
    (tg amount : ℤ) (name reason : String) (actor : Actor) (negative : Bool) (key : Option String)
    (metadata : Option Fields) (db : Db) (found : Option Balance)
    → balance_field name ≡ found
    → Effect db
        (str_append "points.adjust." name)
        key
        tg
        (or_coins found)
        amount
        (adjust_change (or_coins found) amount)
        (adjust tg amount name reason actor negative key metadata db)
adjusts-Effect tg amount name reason actor negative key metadata db none e =
    rw (adjust_unknown tg amount name reason actor negative key metadata db e, Effect) refl
adjusts-Effect tg amount name reason actor negative key metadata db (some field) e =
    adjust-Effect tg amount name reason actor negative key metadata db field e

pub run-Effect : (c : Call) (db : Db) → CallEffect c db (run c db)
unfolding run
run-Effect (adjusts tg amount name reason actor negative key metadata) db =
    adjusts-Effect tg amount name reason actor negative key metadata db (balance_field name) refl
run-Effect (checks_in tg reward now actor maximum key) db =
    check_in-Effect tg reward now actor maximum key db
run-Effect (purchases tg level cost actor reason key) db =
    purchase_level-Effect tg level cost actor reason key db

-- The answer of a call that changes nothing.
abbrev pub IsRefusal : Result ServiceResult → Type 0
IsRefusal (err e) = Unit {0}
IsRefusal (ok r) = (is_ok r ≡ false) ⊎ (r.replayed ≡ true)

abbrev pub CallPosted : Call → Db → Db → Type 0
CallPosted c db after = Posted db after (user_of c) (field_of c) (amount_of c) (change_of c)

module _ (c : Call) (db : Db) where
  refusal_keeps :
      (out : Result ServiceResult × Db) → CallEffect c db out → IsRefusal out.0 → out.1 ≡ db
  refusal_keeps (err e, s) same h = same
  refusal_keeps (ok r, s) (inl (same, no_ok)) h = same
  refusal_keeps (ok r, s) (inr (posted, good, fresh, saved)) (inl bad) = cc
  refusal_keeps (ok r, s) (inr (posted, good, fresh, saved)) (inr old) = cc

  -- A call that raises, is refused or repeats an earlier call leaves the database as it was.
  pub refusal_changes_nothing : IsRefusal (run c db).0 → (run c db).1 ≡ db
  refusal_changes_nothing = refusal_keeps (run c db) (run-Effect c db)

  acceptance_posts :
      (r : ServiceResult) (out : Result ServiceResult × Db)
      → CallEffect c db out
      → out.0 ≡ ok r
      → is_ok r ≡ true
      → r.replayed ≡ false
      → CallPosted c db out.1
        × (find_saved (scope_of c) (key_of c) out.1.idempotency ≡ remembered (key_of c) r)
  acceptance_posts r (err e, s) same h good fresh = cc
  acceptance_posts r (ok r', s) (inl (same, inl bad)) h good fresh = cc (ap is_ok (ok_inj h))
  acceptance_posts r (ok r', s) (inl (same, inr old)) h good fresh =
      cc (ap (λ (x : ServiceResult). x.replayed) (ok_inj h))
  acceptance_posts r (ok r', s) (inr (posted, good', fresh', saved)) h good fresh =
      (posted, saved ∙ ap (remembered (key_of c)) (ok_inj h))

  -- A call that is accepted, and is no repetition, is exactly one posting: the balance of its user
  -- moves by its amount, only the columns of its kind change, and the transaction is on record.
  pub acceptance_is_posting :
      (r : ServiceResult)
      → (run c db).0 ≡ ok r
      → is_ok r ≡ true
      → r.replayed ≡ false
      → CallPosted c db (run c db).1
  acceptance_is_posting r h good fresh =
      (acceptance_posts r (run c db) (run-Effect c db) h good fresh).0

replay_adjusts :
    (tg amount : ℤ) (name reason : String) (actor : Actor) (negative : Bool) (key : Option String)
    (metadata : Option Fields) (db s : Db) (r saved : ServiceResult) (u : Emby)
    (found : Option Balance)
    → balance_field name ≡ found
    → (adjust tg amount name reason actor negative key metadata db).0 ≡ ok r
    → get_user tg s ≡ some u
    → find_saved (str_append "points.adjust." name) key s.idempotency ≡ some saved
    → adjust tg amount name reason actor negative key metadata s ≡ (ok (from_dict saved), s)
replay_adjusts tg amount name reason actor negative key metadata db s r saved u none e h eu es =
    cc (
      sym (ap (λ x. x.0) (adjust_unknown tg amount name reason actor negative key metadata db e))
      ∙ h)
replay_adjusts tg amount name reason actor negative key metadata db s r saved u (some f) e h eu es =
    adjust_known tg amount name reason actor negative key metadata s f e
    ∙ on_user_replay tg (str_append "points.adjust." name) key "user_not_found" _ s u saved eu es

-- A call whose result is on record is answered from the record.
run_replay :
    (c : Call) (db s : Db) (r saved : ServiceResult) (u : Emby)
    → (run c db).0 ≡ ok r
    → get_user (user_of c) s ≡ some u
    → find_saved (scope_of c) (key_of c) s.idempotency ≡ some saved
    → run c s ≡ (ok (from_dict saved), s)
unfolding run check_in purchase_level
run_replay (adjusts tg amount name reason actor negative key metadata) db s r saved u h eu es =
    replay_adjusts tg amount name reason actor negative key metadata db s r saved u
      (balance_field name) refl h eu es
run_replay (checks_in tg reward now actor maximum key) db s r saved u h eu es =
    on_user_replay tg "points.check_in" key "user_not_found" _ s u saved eu es
run_replay (purchases tg level cost actor reason key) db s r saved u h eu es =
    on_user_replay tg (str_append "points.purchase_level." level) key "user_not_found" _ s u saved
      eu es

-- The same call made twice under one key, which is set and not empty: the second one is answered
-- with the first one's result, marked as a repetition, and changes nothing.
pub run_twice :
    (c : Call) (db : Db) (r : ServiceResult) (key : String)
    → key_of c ≡ some key
    → (key == "") ≡ false
    → (run c db).0 ≡ ok r
    → is_ok r ≡ true
    → r.replayed ≡ false
    → run c (run c db).1 ≡ (ok (from_dict (to_dict r)), (run c db).1)
run_twice c db r key keyed set h good fresh =
    let (posted, saved) = acceptance_posts c db r (run c db) (run-Effect c db) h good fresh in
    run_replay c db (run c db).1 r (to_dict r) posted.user' h
      (Posted-user db (run c db).1 (user_of c) (field_of c) (amount_of c) (change_of c) posted)
      (saved ∙ rw (keyed, set))
