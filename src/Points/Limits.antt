-- ===== src/Points/Limits.antt =====
-- The guards of the point service on the range of a balance.
use sakura_embyboss.Prelude.{
  ℤ, pos, ◌+ℤ◌, ◌-ℤ◌, ◌≤ℤ◌, ltb_ℤ, neg, truthy, int_laws, String, Bool, true, false, not, ◌&&◌,
  ◌||◌, ◌≡◌, refl, sym, subst, ◌∙◌, ap, ◌⊎◌, inl, inr, Option, some, [], eq_string, Bool-cases,
  arith, some_inj, str_append,
}
use sakura_embyboss.Exec.{ok}
use sakura_embyboss.Database.{Db, Fields, Actor, ServiceResult, result, is_ok, Emby, get_user}
use sakura_embyboss.Points.{
  Balance, iv, us, balance_fields, has_level, balance_field, max_int_value, min_int_value,
  adjust_user, adjust, purchase_level, purchase_level_user,
}
use sakura_embyboss.Points.Posted.{balance, Posted}
use sakura_embyboss.Points.Effects.{purchase_level_change, adjust_known, adjust_change}
use sakura_embyboss.Points.Calls.{run, or_coins, adjusts, purchases, acceptance_is_posting}
use sakura_embyboss.Points.Audit.{Posted-user}
use sakura_embyboss.Points.Fresh.{on_user_new, not_ok}

-- The range that `adjust` checks.
abbrev pub InRange : Bool → ℤ → Type 0
InRange allow_negative v =
    (min_int_value ≤ℤ v) × (v ≤ℤ max_int_value) × ((allow_negative ≡ true) ⊎ (pos 0 ≤ℤ v))

adjust_user_range :
    (db : Db) (field : Balance) (u : Emby) (amount : ℤ) (name reason : String) (actor : Actor)
    (allow_negative : Bool) (key : Option String) (metadata : Option Fields) (r : ServiceResult)
    → (adjust_user field u amount name reason actor allow_negative key metadata db).0 ≡ ok r
    → is_ok r ≡ true
    → InRange allow_negative (balance field u +ℤ amount)
unfolding adjust_user
adjust_user_range db field u amount name reason actor allow_negative key metadata r h good =
    let new = balance field u +ℤ amount in
    elim (Bool-cases (ltb_ℤ max_int_value new || ltb_ℤ new min_int_value)) [
      | inl e ↦ absurd (
          not_ok {x = result "overflow" (balance_fields (balance field u))} (rw (e, adjust_user))
            refl h good)
      | inr e ↦ elim (Bool-cases (not allow_negative && ltb_ℤ new (pos 0))) [
        | inl f ↦ absurd (
            not_ok {x = result "insufficient_balance" (balance_fields (balance field u))}
              (rw (e, f, adjust_user)) refl h good)
        | inr f ↦ ground arith
      ]
    ]

adjust-Posted :
    (tg amount : ℤ) (name reason : String) (actor : Actor) (allow_negative : Bool)
    (key : Option String) (metadata : Option Fields) (db : Db) (field : Balance) (r : ServiceResult)
    → balance_field name ≡ some field
    → (adjust tg amount name reason actor allow_negative key metadata db).0 ≡ ok r
    → is_ok r ≡ true
    → r.replayed ≡ false
    → Posted db
        (adjust tg amount name reason actor allow_negative key metadata db).1
        tg
        field
        amount
        (adjust_change field amount)
unfolding run
adjust-Posted tg amount name reason actor allow_negative key metadata db field r known h good
      fresh =
    subst
      (λ f.
        Posted db (adjust tg amount name reason actor allow_negative key metadata db).1 tg
          (or_coins f) amount (adjust_change (or_coins f) amount))
      known
      (acceptance_is_posting (adjusts tg amount name reason actor allow_negative key metadata) db r
        h good fresh)

-- A newly accepted adjustment leaves the balance in the range of a 32-bit integer, and not negative
-- unless the call allows that.
pub adjust_limits :
    (tg amount : ℤ) (name reason : String) (actor : Actor) (allow_negative : Bool)
    (key : Option String) (metadata : Option Fields) (db : Db) (field : Balance) (r : ServiceResult)
    (u' : Emby)
    → balance_field name ≡ some field
    → (adjust tg amount name reason actor allow_negative key metadata db).0 ≡ ok r
    → is_ok r ≡ true
    → r.replayed ≡ false
    → get_user tg (adjust tg amount name reason actor allow_negative key metadata db).1 ≡ some u'
    → InRange allow_negative (balance field u')
adjust_limits tg amount name reason actor allow_negative key metadata db field r u' known h good
      fresh found =
    let out = adjust tg amount name reason actor allow_negative key metadata db in
    let p =
      adjust-Posted tg amount name reason actor allow_negative key metadata db field r known h good
        fresh in
    let (u, e, b) =
      on_user_new tg (str_append "points.adjust." name) key "user_not_found" _ db r refl
        (sym (
            ap (λ x. x.0)
              (adjust_known tg amount name reason actor allow_negative key metadata db field known))
          ∙ h)
        (good, fresh) in
    let row : u' ≡ p.user' =
      some_inj (sym found ∙ Posted-user db out.1 tg field amount (adjust_change field amount) p) in
    let old : p.user ≡ u = some_inj (sym p.found ∙ e) in
    rw (row, p.moved, old)
      (adjust_user_range db field u amount name reason actor allow_negative key metadata r b good)

purchase_level_user_covered :
    (db : Db) (u : Emby) (level : String) (cost : ℤ) (actor : Actor) (reason : String)
    (key : Option String) (r : ServiceResult)
    → (purchase_level_user u level cost actor reason key db).0 ≡ ok r
    → is_ok r ≡ true
    → (truthy u.embyid ≡ true) × (cost ≤ℤ balance iv u)
unfolding purchase_level_user
purchase_level_user_covered db u level cost actor reason key r h good =
    elim (Bool-cases (truthy u.embyid)) [
      | inr e ↦
          absurd (not_ok {x = result "no_account" []} (rw (e, purchase_level_user)) refl h good)
      | inl e ↦ elim (Bool-cases (has_level u.lv level)) [
        | inl f ↦ absurd (
            not_ok {x = result "already_owned" (balance_fields (balance iv u))}
              (rw (e, f, purchase_level_user)) refl h good)
        | inr f ↦ elim (Bool-cases (ltb_ℤ (balance iv u) cost)) [
          | inl g ↦ absurd (
              not_ok {x = result "insufficient_balance" (balance_fields (balance iv u))}
                (rw (e, f, g, purchase_level_user)) refl h good)
          | inr g ↦ (e, ground arith)
        ]
      ]
    ]

-- A newly accepted purchase of a level was covered: the balance after it, which is the old one less
-- the cost, is not negative, the user has the level, and the other balance is the same.
pub purchase_level_limits :
    (tg : ℤ) (level : String) (cost : ℤ) (actor : Actor) (reason : String) (key : Option String)
    (db : Db) (r : ServiceResult) (u u' : Emby)
    → (purchase_level tg level cost actor reason key db).0 ≡ ok r
    → is_ok r ≡ true
    → r.replayed ≡ false
    → get_user tg db ≡ some u
    → get_user tg (purchase_level tg level cost actor reason key db).1 ≡ some u'
    → (balance iv u' ≡ balance iv u -ℤ cost)
      × (pos 0 ≤ℤ balance iv u')
      × (u'.lv ≡ some level)
      × (balance us u' ≡ balance us u)
unfolding run purchase_level
purchase_level_limits tg level cost actor reason key db r u u' h good fresh found found' =
    let out = purchase_level tg level cost actor reason key db in
    let p = acceptance_is_posting (purchases tg level cost actor reason key) db r h good fresh in
    let (v, e, b) =
      on_user_new tg (str_append "points.purchase_level." level) key "user_not_found" _ db r refl h
        (good, fresh) in
    let covered = (purchase_level_user_covered db v level cost actor reason key r b good).1 in
    let old : p.user ≡ u = some_inj (sym p.found ∙ found) in
    let at_v : v ≡ u = some_inj (sym e ∙ found) in
    let row : u' ≡ p.user' =
      some_inj
        (sym found' ∙ Posted-user db out.1 tg iv (neg cost) (purchase_level_change level cost) p) in
    rw (row, p.changed, old) (refl, covers u cost (rw at_v at covered), refl, refl)
  where
    covers : (u : Emby) (cost : ℤ) → cost ≤ℤ balance iv u → pos 0 ≤ℤ balance iv u -ℤ cost
    covers u cost c = omega int_laws
