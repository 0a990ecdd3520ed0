-- ===== src/Codes/Answers.antt =====
-- The answers of a redemption in application/code_service.py: which are accepted, which account is
-- refused, and when adding days leaves the calendar.
use sakura_embyboss.Prelude.{
  ℤ, truthy, ltb_ℤ, some_inj, pos, negsuc, leb, ◌+ℤ◌, or_zero, String, Bool, true, false, not, ◌&&◌,
  ◌≡◌, refl, sym, subst, ◌∙◌, ◌⊎◌, inl, inr, Option, none, some, [], eq_string, if◌then◌else◌,
  Bool-cases, arith,
}
use sakura_embyboss.Exec.{ok, err, overflow_error}
use sakura_embyboss.Database.{Db, DateTime, ServiceResult, result, is_ok, from_dict, Emby}
use sakura_embyboss.Codes.{Kind, registration, renewal, whitelist}
use sakura_embyboss.Codes.Redeem.{account_denied, in_calendar, days_of, max_datetime, add_days}

-- A new acceptance: no refusal, and no repetition of an old answer.
abbrev pub is_accepted : ServiceResult → Bool
is_accepted r = is_ok r && not r.replayed

pub add_days_cases :
    (t : DateTime) (n : ℤ) (db : Db)
    → (add_days t n db ≡ (err overflow_error, db))
      ⊎ ((u : DateTime) × (add_days t n db ≡ (ok u, db)))
unfolding add_days in_calendar
add_days_cases t n db = go (pos t +ℤ days_of n)
  where
    go :
        (z : ℤ)
        → (in_calendar z db ≡ (err overflow_error, db))
          ⊎ ((u : DateTime) × (in_calendar z db ≡ (ok u, db)))
    go (negsuc k) = inl refl
    go (pos k) = elim (Bool-cases (leb k max_datetime)) [
      | inl h ↦ inr (k, rw h refl)
      | inr h ↦ inl (rw h refl)
    ]

refused_by :
    (o : Option String) (name status : String)
    → o ≡ some status
    → o ≡ some name
    → is_accepted (result name []) ≡ false
    → is_accepted (result status []) ≡ false
refused_by o name status h e bad =
    let same : name ≡ status = some_inj (sym e ∙ h) in
    subst (λ t. is_accepted (result t []) ≡ false) same bad

no_account :
    (b : Bool) (status : String)
    → (if b then none else some "no_account") ≡ some status
    → is_accepted (result status []) ≡ false
no_account true status h = cc
no_account false status h = refused_by (some "no_account") "no_account" status h refl refl

other_account :
    (b d : Bool) (status : String)
    → (if b then some "has_account" else if d then some "already_qualified" else none) ≡ some status
    → is_accepted (result status []) ≡ false
other_account true d status h = refused_by (some "has_account") "has_account" status h refl refl
other_account false true status h =
    refused_by (some "already_qualified") "already_qualified" status h refl refl
other_account false false status h = cc

-- No refusal for the account has the status "ok".
pub denied :
    (kind : Kind) (user : Emby) (status : String)
    → account_denied kind user ≡ some status
    → is_accepted (result status []) ≡ false
denied whitelist user status h = no_account (truthy user.embyid) status h
denied renewal user status h = no_account (truthy user.embyid) status h
denied registration user status h =
    other_account (truthy user.embyid) (ltb_ℤ (pos 0) (or_zero user.us)) status h

pub replayed_refused : (saved : ServiceResult) → is_accepted (from_dict saved) ≡ false
replayed_refused saved = ground arith
