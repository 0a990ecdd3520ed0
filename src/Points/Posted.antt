-- ===== src/Points/Posted.antt =====
-- What an operation of the point service does to the database: nothing, or one posting.
use sakura_embyboss.Prelude.{
  ℤ, ◌+ℤ◌, or_zero, String, true, false, ◌≡◌, refl, sym, subst, ◌∙◌, ◌⊎◌, inl, inr, Option, none,
  some, [], ◌∷◌, ◌==◌, eq_int, eq_string, replace, Option-cases, Bool-cases, ==_refl, if◌then◌else◌,
  first, List, arith,
}
use sakura_embyboss.Exec.{Exec, Result, ok, err, settle, pure, transaction, ◌>>◌, bind_ok, bind_err}
use sakura_embyboss.Database.{
  Db, Fields, Actor, ServiceResult, result, is_ok, to_dict, IdempotencyRecord, from_dict, Emby,
  PointTransaction, has_tg, get_user, by_legacy_tg,
}
use sakura_embyboss.Operations.{
  Posting, point_transaction, save_idempotent_result, audit, event, find_saved, transaction_of,
}
use sakura_embyboss.Operations.Booking.{
  mirrored, Raises, booked, point_transaction_cases, save_cases, kept_record,
}
use sakura_embyboss.Points.{Balance, iv, us, get_balance, save_user, on_user}

-- The name of a balance in the tables.
abbrev pub name_of : Balance → String
name_of iv = "coins"
name_of us = "registration_days"

abbrev pub other : Balance → Balance
other iv = us
other us = iv

abbrev pub balance : Balance → Emby → ℤ
balance field u = or_zero (get_balance field u)

-- One posting: the user's balance moves by the amount, the other balance and the other users stay,
-- the transaction is on record with the new balance, and the wallet of the user's account has it.
pub record Posted (before after : Db) (tg : ℤ) (field : Balance) (amount : ℤ) (change : Emby → Emby)
    : Type 0 where
  pub user : Emby
  pub user' : Emby
  pub entry : PointTransaction
  pub found : get_user tg before ≡ some user
  pub changed : user' ≡ change user
  pub same_tg : user'.tg ≡ user.tg
  pub users : after.users ≡ replace (has_tg user.tg) user' before.users
  pub moved : balance field user' ≡ balance field user +ℤ amount
  pub others : balance (other field) user' ≡ balance (other field) user
  pub transactions : after.transactions ≡ entry ∷ before.transactions
  pub entry_tg : entry.tg ≡ user.tg
  pub entry_type : entry.balance_type ≡ name_of field
  pub entry_amount : entry.amount ≡ amount
  pub entry_after : entry.balance_after ≡ balance field user'
  pub accounts : after.accounts ≡ before.accounts
  pub wallets :
      after.wallets
      ≡ mirrored (by_legacy_tg user.tg before) (name_of field) (balance field user') before.wallets

-- What a later call with the key finds.
abbrev pub remembered : Option String → ServiceResult → Option ServiceResult
remembered none r = none
remembered (some key) r = if key == "" then none else some (to_dict r)

abbrev pub IsPosting :
    Db → String → Option String → ℤ → Balance → ℤ → (Emby → Emby) → ServiceResult → Db → Type 0
IsPosting before scope key tg field amount change r after =
    Posted before after tg field amount change
    × (is_ok r ≡ true)
    × (r.replayed ≡ false)
    × (find_saved scope key after.idempotency ≡ remembered key r)

-- The outcome of the body of an operation, which a raise leaves to the rollback.
abbrev pub Writes :
    Db
    → String
    → Option String
    → ℤ
    → Balance
    → ℤ
    → (Emby → Emby)
    → Result ServiceResult × Db
    → Type 0
Writes before scope key tg field amount change (err e, s) = Unit
Writes before scope key tg field amount change (ok r, s) =
    ((s ≡ before) × (is_ok r ≡ false)) ⊎ IsPosting before scope key tg field amount change r s

-- The outcome of an operation: nothing is changed by an exception, a refusal or a repeated call,
-- and any other answer stands for one posting.
abbrev pub Effect :
    Db
    → String
    → Option String
    → ℤ
    → Balance
    → ℤ
    → (Emby → Emby)
    → Result ServiceResult × Db
    → Type 0
Effect before scope key tg field amount change (err e, s) = s ≡ before
Effect before scope key tg field amount change (ok r, s) =
    ((s ≡ before) × ((is_ok r ≡ false) ⊎ (r.replayed ≡ true)))
    ⊎ IsPosting before scope key tg field amount change r s

settle-Effect :
    (before : Db) (scope : String) (key : Option String) (tg : ℤ) (field : Balance) (amount : ℤ)
    (change : Emby → Emby) (out : Result ServiceResult × Db)
    → Writes before scope key tg field amount change out
    → Effect before scope key tg field amount change (settle out.0 before out.1)
settle-Effect before scope key tg field amount change (err e, s) w = refl
settle-Effect before scope key tg field amount change (ok r, s) (inl (same, no_ok)) =
    inl (same, inl no_ok)
settle-Effect before scope key tg field amount change (ok r, s) (inr p) = inr p

-- The frame of an operation on the user `tg`: no user, an earlier result, or the body.
module _ (tg : ℤ) (scope : String) (key : Option String) (missing : String)
    (body : Emby → Exec Db ServiceResult) (db : Db) where
  pub on_user_missing :
      get_user tg db ≡ none → on_user tg scope key missing body db ≡ (ok (result missing []), db)
  unfolding on_user
  on_user_missing e = ground arith

  pub on_user_replay :
      (user : Emby) (saved : ServiceResult)
      → get_user tg db ≡ some user
      → find_saved scope key db.idempotency ≡ some saved
      → on_user tg scope key missing body db ≡ (ok (from_dict saved), db)
  unfolding on_user
  on_user_replay user saved e f = ground arith

  pub on_user_body :
      (user : Emby)
      → get_user tg db ≡ some user
      → find_saved scope key db.idempotency ≡ none
      → on_user tg scope key missing body db ≡ transaction (body user) db
  unfolding on_user
  on_user_body user e f = ground arith

  pub on_user-Effect :
      (field : Balance) (amount : ℤ) (change : Emby → Emby)
      → (missing == "ok") ≡ false
      → ((user : Emby)
          → get_user tg db ≡ some user
          → Writes db scope key tg field amount change (body user db))
      → Effect db scope key tg field amount change (on_user tg scope key missing body db)
  on_user-Effect field amount change no_ok writes = elim (Option-cases (get_user tg db)) [
    | inl e ↦
        subst (Effect db scope key tg field amount change) (sym (on_user_missing e))
          (inl (refl, inl no_ok))
    | inr (user, e) ↦ elim (Option-cases (find_saved scope key db.idempotency)) [
      | inl f ↦
          subst (Effect db scope key tg field amount change) (sym (on_user_body user e f))
            (settle-Effect db scope key tg field amount change (body user db) (writes user e))
      | inr (saved, f) ↦
          subst (Effect db scope key tg field amount change) (sym (on_user_replay user saved e f))
            (inl (refl, inr refl))
    ]
  ]

pub find_saved-kept :
    (scope : String) (key : Option String) (r : ServiceResult) (rows : List IdempotencyRecord)
    → find_saved scope key (kept_record scope key (to_dict r) rows) ≡ remembered key r
unfolding find_saved first
find_saved-kept scope none r rows = refl
find_saved-kept scope (some key) r rows = elim (Bool-cases (key == "")) [
  | inl e ↦ rw e
  | inr e ↦ rw (e, ==_refl scope, ==_refl key)
]

-- The writes that the operations share, in their order.
module _ (actor : Actor) (action kind scope : String) (id : Option String) (detail : Option Fields)
    (name : String) (payload : Fields) (key : Option String) (outcome : ServiceResult) where
  abbrev log_part : Exec Db ServiceResult
  log_part = do
    audit actor action kind id "success" detail
    event name kind id payload
    save_idempotent_result scope key (to_dict outcome)
    pure outcome

  abbrev write_part : Emby → Posting → Exec Db ServiceResult
  write_part user' p = do save_user user'; point_transaction p; log_part

  abbrev logged : Db → Db
  logged s = (event name kind id payload (audit actor action kind id "success" detail s).1).1

  -- The log is complete, or its key is taken.
  log_part_cases :
      (s : Db)
      → Raises (log_part s)
        ⊎ (log_part s ≡ (
          ok outcome,
          record (logged s) { idempotency = kept_record scope key (to_dict outcome) s.idempotency },
        ))
  unfolding audit event
  log_part_cases s = elim (save_cases scope key (to_dict outcome) (logged s)) [
    | inl (t, f) ↦ inl (t, ground arith)
    | inr f ↦ inr (ground arith)
  ]

  abbrev started : Emby → Db → Db
  started user' db = record db { users = replace (has_tg user'.tg) user' db.users }

  abbrev written : Emby → Posting → Db → Db
  written user' p db = record (logged (booked p (started user' db))) {
    idempotency = kept_record scope key (to_dict outcome) db.idempotency;
  }

  write_part_cases :
      (user' : Emby) (p : Posting) (db : Db)
      → Raises (write_part user' p db) ⊎ (write_part user' p db ≡ (ok outcome, written user' p db))
  write_part_cases user' p db = elim (point_transaction_cases p (started user' db)) [
    | inl (s, e) ↦ inl (s, bind_err (point_transaction p) (λ _. log_part) (started user' db) s _ e)
    | inr e ↦ elim (log_part_cases (booked p (started user' db))) [
      | inl (s, f) ↦
          inl (s, bind_ok (point_transaction p) (λ _. log_part) (started user' db) _ _ e ∙ f)
      | inr f ↦ inr (bind_ok (point_transaction p) (λ _. log_part) (started user' db) _ _ e ∙ f)
    ]
  ]

  -- One posting, if no key is taken.
  pub write-Writes :
      (tg : ℤ) (field : Balance) (user user' : Emby) (change : Emby → Emby) (p : Posting) (db : Db)
      → get_user tg db ≡ some user
      → user' ≡ change user
      → user'.tg ≡ user.tg
      → p.tg ≡ user.tg
      → p.balance_type ≡ name_of field
      → p.balance_after ≡ balance field user'
      → balance field user' ≡ balance field user +ℤ p.amount
      → balance (other field) user' ≡ balance (other field) user
      → is_ok outcome ≡ true
      → outcome.replayed ≡ false
      → Writes db scope key tg field p.amount change (write_part user' p db)
  unfolding audit event
  write-Writes tg field user user' change p db found changed same ptg ptype pafter moved others good
        fresh =
      elim (write_part_cases user' p db) [
        | inl (s, e) ↦ subst (Writes db scope key tg field p.amount change) (sym e) tt
        | inr e ↦ subst (Writes db scope key tg field p.amount change) (sym e) (
            inr (
              record {
                user = user;
                user' = user';
                entry = transaction_of db.next_transaction (by_legacy_tg p.tg (started user' db)) p;
                found = found;
                changed = changed;
                same_tg = same;
                users = rw same;
                moved = moved;
                others = others;
                transactions = refl;
                entry_tg = ptg;
                entry_type = ptype;
                entry_amount = refl;
                entry_after = pafter;
                accounts = refl;
                wallets = rw (ptg, ptype, pafter);
              },
              good,
              fresh,
              find_saved-kept scope key outcome db.idempotency,
            ))
      ]
