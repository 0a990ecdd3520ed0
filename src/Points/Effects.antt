-- ===== src/Points/Effects.antt =====
-- Each operation of the point service is a refusal, a repeated call or one posting.
use sakura_embyboss.Prelude.{
  ℤ, pos, ◌+ℤ◌, ◌-ℤ◌, neg, +ℤ_neg, ltb_ℤ, or_zero, String, Bool, true, false, not, ◌&&◌, ◌||◌, ◌≡◌,
  refl, sym, subst, ◌⊎◌, inl, inr, Option, none, some, ◌==◌, eq_string, Bool-cases, arith, truthy,
  str_append,
}
use Prim.Native.String.{compare}
use text.Mathlib.TextEquality.{eq_iff}
use sakura_embyboss.Exec.{Error, ok, err, type_error, value_error, bind_ok, bind_err}
use sakura_embyboss.Database.{Db, DateTime, Fields, Actor, Emby, get_user}
use sakura_embyboss.Points.{
  Balance, iv, us, balance_field, get_balance, set_balance, max_int_value, min_int_value,
  adjust_answer, check_in_answer, purchase_level_answer, adjust_write, adjust_user, adjust, on_user,
  level_denied, checked_in, check_in_write, check_in_user, check_in_level, is_gt, check_in,
  has_level, purchase_level_write, purchase_level_user, purchase_level,
}
use sakura_embyboss.Points.Posted.{
  name_of, other, balance, Writes, Effect, on_user-Effect, write-Writes,
}

-- The row of the user after each operation: no other column changes.
abbrev pub adjust_change : Balance → ℤ → Emby → Emby
adjust_change field amount u = set_balance field (balance field u +ℤ amount) u

abbrev pub check_in_change : ℤ → DateTime → Emby → Emby
check_in_change reward now u = record u { iv = some (or_zero u.iv +ℤ reward); ch = some now }

abbrev pub purchase_level_change : String → ℤ → Emby → Emby
purchase_level_change level cost u = record u { iv = some (or_zero u.iv -ℤ cost); lv = some level }

balance-set_self : (field : Balance) (v : ℤ) (u : Emby) → balance field (set_balance field v u) ≡ v
balance-set_self iv v u = refl
balance-set_self us v u = refl

balance-set_other :
    (field : Balance) (v : ℤ) (u : Emby)
    → balance (other field) (set_balance field v u) ≡ balance (other field) u
balance-set_other iv v u = refl
balance-set_other us v u = refl

tg-set_balance : (field : Balance) (v : ℤ) (u : Emby) → (set_balance field v u).tg ≡ u.tg
tg-set_balance iv v u = refl
tg-set_balance us v u = refl

pub balance_field-name :
    (name : String) (field : Balance) → balance_field name ≡ some field → name ≡ name_of field
unfolding balance_field
balance_field-name name field h =
    ground (arith, eq_iff name "coins", eq_iff name "registration_days")

-- The level test answers without a change, or a missing level raises.
pub level_denied_cases :
    (lv maximum : Option String) (db : Db)
    → ((x : Error) × (level_denied lv maximum db ≡ (err x, db)))
      ⊎ ((b : Bool) × (level_denied lv maximum db ≡ (ok b, db)))
level_denied_cases lv none db = inr (_, refl)
level_denied_cases lv (some maximum) db = elim (Bool-cases (maximum == "")) [
  | inl e ↦ inr (false, rw e)
  | inr e ↦ above_cases lv e
]
  where
    above_cases :
        (lv : Option String)
        → (maximum == "") ≡ false
        → ((x : Error) × (level_denied lv (some maximum) db ≡ (err x, db)))
          ⊎ ((b : Bool) × (level_denied lv (some maximum) db ≡ (ok b, db)))
    above_cases none e = inl (type_error, rw e)
    above_cases (some l) e = inr (is_gt (compare l maximum), rw e)

module _ (tg : ℤ) (db : Db) (user : Emby) (found : get_user tg db ≡ some user) where
  adjust_user-Writes :
      (field : Balance) (amount : ℤ) (name reason : String) (actor : Actor) (allow_negative : Bool)
      (key : Option String) (metadata : Option Fields)
      → name ≡ name_of field
      → Writes db
          (str_append "points.adjust." name)
          key
          tg
          field
          amount
          (adjust_change field amount)
          (adjust_user field user amount name reason actor allow_negative key metadata db)
  unfolding adjust_user adjust_write
  adjust_user-Writes field amount name reason actor allow_negative key metadata named =
      let new = or_zero (get_balance field user) +ℤ amount in
      elim (Bool-cases (ltb_ℤ max_int_value new || ltb_ℤ new min_int_value)) [
        | inl e ↦ rw (e, Writes) (inl (refl, refl))
        | inr e ↦ elim (Bool-cases (not allow_negative && ltb_ℤ new (pos 0))) [
          | inl f ↦ rw (e, f, Writes) (inl (refl, refl))
          | inr f ↦
              rw (e, f)
                (write-Writes _ _ _ _ _ _ _ _ _ (adjust_answer new amount) tg field user
                  (set_balance field new user) (adjust_change field amount) _ db found refl
                  (tg-set_balance field new user) refl named (sym (balance-set_self field new user))
                  (balance-set_self field new user) (balance-set_other field new user) refl refl)
        ]
      ]

  check_in_level-Writes :
      (reward : ℤ) (now : DateTime) (actor : Actor) (key : Option String) (denied : Bool)
      → Writes db "points.check_in" key tg iv reward
          (check_in_change reward now)
          (check_in_level user reward now actor key denied db)
  unfolding check_in_level check_in_write
  check_in_level-Writes reward now actor key true = inl (refl, refl)
  check_in_level-Writes reward now actor key false = elim (Bool-cases (checked_in user.ch now)) [
    | inl e ↦ rw (e, Writes) (inl (refl, refl))
    | inr e ↦ elim (Bool-cases (ltb_ℤ max_int_value (or_zero user.iv +ℤ reward))) [
      | inl f ↦ rw (e, f, Writes) (inl (refl, refl))
      | inr f ↦
          rw (e, f)
            (write-Writes _ _ _ _ _ _ _ _ _ (check_in_answer (or_zero user.iv +ℤ reward) reward now)
              tg iv user (record user { iv = some (or_zero user.iv +ℤ reward); ch = some now })
              (check_in_change reward now) _ db found refl refl refl refl refl refl refl refl refl)
    ]
  ]

  check_in_user-Writes :
      (reward : ℤ) (now : DateTime) (actor : Actor) (maximum key : Option String)
      → Writes db "points.check_in" key tg iv reward
          (check_in_change reward now)
          (check_in_user user reward now actor maximum key db)
  unfolding check_in_user
  check_in_user-Writes reward now actor maximum key =
      let rest = check_in_level user reward now actor key in
      elim (level_denied_cases user.lv maximum db) [
        | inl (x, e) ↦
            subst (Writes db "points.check_in" key tg iv reward (check_in_change reward now))
              (sym (bind_err (level_denied user.lv maximum) rest db db x e)) tt
        | inr (denied, e) ↦
            subst (Writes db "points.check_in" key tg iv reward (check_in_change reward now))
              (sym (bind_ok (level_denied user.lv maximum) rest db db denied e))
              (check_in_level-Writes reward now actor key denied)
      ]

  purchase_level_user-Writes :
      (level : String) (cost : ℤ) (actor : Actor) (reason : String) (key : Option String)
      → Writes db
          (str_append "points.purchase_level." level)
          key
          tg
          iv
          (neg cost)
          (purchase_level_change level cost)
          (purchase_level_user user level cost actor reason key db)
  unfolding purchase_level_user purchase_level_write
  purchase_level_user-Writes level cost actor reason key =
      elim (Bool-cases (not (truthy user.embyid))) [
        | inl e ↦ rw (e, Writes) (inl (refl, refl))
        | inr e ↦ elim (Bool-cases (has_level user.lv level)) [
          | inl f ↦ rw (e, f, Writes) (inl (refl, refl))
          | inr f ↦ elim (Bool-cases (ltb_ℤ (or_zero user.iv) cost)) [
            | inl g ↦ rw (e, f, g, Writes) (inl (refl, refl))
            | inr g ↦
                rw (e, f, g)
                  (write-Writes _ _ _ _ _ _ _ _ _
                    (purchase_level_answer (or_zero user.iv -ℤ cost) level) tg iv user
                    (record user { iv = some (or_zero user.iv -ℤ cost); lv = some level })
                    (purchase_level_change level cost) _ db found refl refl refl refl refl
                    (sym (+ℤ_neg (or_zero user.iv) cost)) refl refl refl)
          ]
        ]
      ]

-- `adjust` of a known balance is its body on the user.
pub adjust_known :
    (tg amount : ℤ) (name reason : String) (actor : Actor) (allow_negative : Bool)
    (key : Option String) (metadata : Option Fields) (db : Db) (field : Balance)
    → balance_field name ≡ some field
    → adjust tg amount name reason actor allow_negative key metadata db
      ≡ on_user tg
          (str_append "points.adjust." name)
          key
          "user_not_found"
          (λ user. adjust_user field user amount name reason actor allow_negative key metadata)
          db
unfolding adjust
adjust_known tg amount name reason actor allow_negative key metadata db field e = rw (e, adjust)

-- `adjust` of a known balance: an exception, a refusal and a repeated call change nothing, and any
-- other answer is one posting of the amount to that balance.
pub adjust-Effect :
    (tg amount : ℤ) (name reason : String) (actor : Actor) (allow_negative : Bool)
    (key : Option String) (metadata : Option Fields) (db : Db) (field : Balance)
    → balance_field name ≡ some field
    → Effect db
        (str_append "points.adjust." name)
        key
        tg
        field
        amount
        (adjust_change field amount)
        (adjust tg amount name reason actor allow_negative key metadata db)
adjust-Effect tg amount name reason actor allow_negative key metadata db field known =
    subst
      (Effect db (str_append "points.adjust." name) key tg field amount
        (adjust_change field amount))
      (sym (adjust_known tg amount name reason actor allow_negative key metadata db field known))
      (on_user-Effect tg (str_append "points.adjust." name) key "user_not_found" _ db field amount
        (adjust_change field amount) refl
        (λ user found.
          adjust_user-Writes tg db user found field amount name reason actor allow_negative key
            metadata (balance_field-name name field known)))

-- An unknown balance raises.
pub adjust_unknown :
    (tg amount : ℤ) (name reason : String) (actor : Actor) (allow_negative : Bool)
    (key : Option String) (metadata : Option Fields) (db : Db)
    → balance_field name ≡ none
    → adjust tg amount name reason actor allow_negative key metadata db ≡ (err value_error, db)
unfolding adjust
adjust_unknown tg amount name reason actor allow_negative key metadata db e = ground arith

pub check_in-Effect :
    (tg reward : ℤ) (now : DateTime) (actor : Actor) (maximum key : Option String) (db : Db)
    → Effect db "points.check_in" key tg iv reward
        (check_in_change reward now)
        (check_in tg reward now actor maximum key db)
unfolding check_in
check_in-Effect tg reward now actor maximum key db =
    on_user-Effect tg "points.check_in" key "user_not_found" _ db iv reward
      (check_in_change reward now) refl
      (λ user found. check_in_user-Writes tg db user found reward now actor maximum key)

pub purchase_level-Effect :
    (tg : ℤ) (level : String) (cost : ℤ) (actor : Actor) (reason : String) (key : Option String)
    (db : Db)
    → Effect db
        (str_append "points.purchase_level." level)
        key
        tg
        iv
        (neg cost)
        (purchase_level_change level cost)
        (purchase_level tg level cost actor reason key db)
unfolding purchase_level
purchase_level-Effect tg level cost actor reason key db =
    on_user-Effect tg (str_append "points.purchase_level." level) key "user_not_found" _ db iv
      (neg cost) (purchase_level_change level cost) refl
      (λ user found. purchase_level_user-Writes tg db user found level cost actor reason key)
