-- ===== src/Users/Ensure.antt =====
-- `ensure_user` of application/user_service.py leaves a user and an account.
use sakura_embyboss.Prelude.{
  not, is_some, ℤ, String, Bool, true, false, ◌≡◌, refl, sym, ◌∙◌, ap, subst, inl, inr, none, some,
  ◌∷◌, eq_int, eq_string, first, Bool-cases, Option-cases, ==_refl,
}
use sakura_embyboss.Exec.{
  ok_inj, Result, ok, err, integrity_error, ◌>>=◌, bind_ok, bind_err, settle, gets,
}
use sakura_embyboss.Database.{Db, Actor, ServiceResult, Emby, Account, get_user, by_legacy_tg}
use sakura_embyboss.Operations.{audit, event}
use sakura_embyboss.Users.{
  new_user, add_if_missing, account_clashes, account_or, with_new_account, new_account, add_account,
  ensured, log_ensured, finish_ensure, ensure_account, ensure_user,
}

-- The database has the user and the account, and the answer names them, and whether the user is new.
abbrev pub Ensured : ℤ → Bool → ServiceResult → Db → Type 0
Ensured tg created r db =
    (u : Emby) × (a : Account) × (get_user tg db ≡ some u)
    × (by_legacy_tg tg db ≡ some a)
    × (r ≡ ensured tg a created)

-- Whether a call makes the user.
abbrev pub is_new : ℤ → Db → Bool
is_new tg db = not (is_some (get_user tg db))

-- What a call leaves.
abbrev pub Outcome : ℤ → Db → Result ServiceResult × Db → Type 0
Outcome tg before (err e, s) = s ≡ before
Outcome tg before (ok r, s) = Ensured tg (is_new tg before) r s

module _ (uuid5 : String → String) (tg : ℤ) (actor : Actor) where
  add_known :
      (db : Db) (u : Emby) → get_user tg db ≡ some u → add_if_missing tg db ≡ (ok (u, false), db)
  unfolding add_if_missing
  add_known db u e = rw e refl

  abbrev added : Db → Db
  added db = record db { users = new_user tg ∷ db.users }

  add_new :
      (db : Db) → get_user tg db ≡ none → add_if_missing tg db ≡ (ok (new_user tg, true), added db)
  unfolding add_if_missing
  add_new db e = rw e refl

  -- The outcome of the second part, from a state that has the user.
  abbrev Part : Bool → Result ServiceResult × Db → Type 0
  Part created (err e, s) = Unit
  Part created (ok r, s) = Ensured tg created r s

  settle-Part :
      (before : Db) (out : Result ServiceResult × Db)
      → Part (is_new tg before) out
      → Outcome tg before (settle out.0 before out.1)
  settle-Part before (err e, s) p = refl
  settle-Part before (ok r, s) p = p

  finish-Part :
      (created account_created : Bool) (s : Db) (u : Emby) (a : Account)
      → get_user tg s ≡ some u
      → by_legacy_tg tg s ≡ some a
      → Part created (finish_ensure tg actor created (a, account_created) s)
  unfolding log_ensured audit event
  finish-Part true made s u a eu ea = (u, a, eu, ea, refl)
  finish-Part false true s u a eu ea = (u, a, eu, ea, refl)
  finish-Part false false s u a eu ea = (u, a, eu, ea, refl)

  account-Part :
      (created : Bool) (s : Db) (u : Emby)
      → get_user tg s ≡ some u
      → Part created (ensure_account uuid5 tg actor (u, created) s)
  unfolding add_account first
  account-Part created s u eu = elim (Option-cases (by_legacy_tg tg s)) [
    | inr (a, ea) ↦
        let found : (gets (by_legacy_tg tg) >>= account_or uuid5 u tg) s ≡ (ok (a, false), s) =
          rw ea refl in
        subst (Part created)
          (sym (
            bind_ok (gets (by_legacy_tg tg) >>= account_or uuid5 u tg)
              (finish_ensure tg actor created) s s (a, false) found))
          (finish-Part created false s u a eu ea)
    | inl ea ↦ elim (Bool-cases (account_clashes uuid5 tg s)) [
      | inl h ↦
          let lost : (gets (by_legacy_tg tg) >>= account_or uuid5 u tg) s
              ≡ (err integrity_error, s) =
            rw (ea, h) refl in
          subst (Part created)
            (sym (
              bind_err (gets (by_legacy_tg tg) >>= account_or uuid5 u tg)
                (finish_ensure tg actor created) s s integrity_error lost))
            tt
      | inr h ↦
          let s' = with_new_account uuid5 u tg s in
          let made : (gets (by_legacy_tg tg) >>= account_or uuid5 u tg) s
              ≡ (ok (new_account uuid5 tg, true), s') =
            rw (ea, h) refl in
          subst (Part created)
            (sym (
              bind_ok (gets (by_legacy_tg tg) >>= account_or uuid5 u tg)
                (finish_ensure tg actor created) s s' (new_account uuid5 tg, true) made))
            (finish-Part created true s' u (new_account uuid5 tg) eu (rw (==_refl tg) refl))
    ]
  ]

  -- The user and the account are there: the call tells so and changes nothing.
  known :
      (db : Db) (u : Emby) (a : Account)
      → get_user tg db ≡ some u
      → by_legacy_tg tg db ≡ some a
      → ensure_user uuid5 tg actor db ≡ (ok (ensured tg a false), db)
  unfolding ensure_user
  known db u a eu ea =
      ap (λ (out : Result ServiceResult × Db). settle out.0 db out.1)
        (bind_ok (add_if_missing tg) (ensure_account uuid5 tg actor) db db (u, false)
            (add_known db u eu)
          ∙ second)
    where
      second : ensure_account uuid5 tg actor (u, false) db ≡ (ok (ensured tg a false), db)
      second =
          let found : (gets (by_legacy_tg tg) >>= account_or uuid5 u tg) db ≡ (ok (a, false), db) =
            rw ea refl in
          bind_ok (gets (by_legacy_tg tg) >>= account_or uuid5 u tg) (finish_ensure tg actor false)
            db db (a, false) found

  ensure_user-Outcome : (db : Db) → Outcome tg db (ensure_user uuid5 tg actor db)
  unfolding ensure_user first
  ensure_user-Outcome db = elim (Option-cases (get_user tg db)) [
    | inr (u, eu) ↦ settle-Part db _ (
        subst (Part (is_new tg db))
          (sym (
            bind_ok (add_if_missing tg) (ensure_account uuid5 tg actor) db db (u, false)
              (add_known db u eu)))
          (subst (λ b. Part b (ensure_account uuid5 tg actor (u, false) db)) (rw eu refl)
            (account-Part false db u eu)))
    | inl eu ↦ settle-Part db _ (
        subst (Part (is_new tg db))
          (sym (
            bind_ok (add_if_missing tg) (ensure_account uuid5 tg actor) db (added db)
              (new_user tg, true) (add_new db eu)))
          (subst (λ b. Part b (ensure_account uuid5 tg actor (new_user tg, true) (added db)))
            (rw eu refl) (account-Part true (added db) (new_user tg) (rw (==_refl tg) refl))))
  ]

  -- A call that succeeds has left a row of the user and an account of the user's tg, and has answered
  -- with that account and with whether the user was missing. A second call reports the same account,
  -- tells that nothing was created, and changes nothing.
  pub ensure_user_twice :
      (db : Db) (r : ServiceResult)
      → (ensure_user uuid5 tg actor db).0 ≡ ok r
      → let after = (ensure_user uuid5 tg actor db).1 in
        (u : Emby) × (a : Account) × (get_user tg after ≡ some u)
        × (by_legacy_tg tg after ≡ some a)
        × (r ≡ ensured tg a (is_new tg db))
        × (ensure_user uuid5 tg actor after ≡ (ok (ensured tg a false), after))
  ensure_user_twice db r h = go (ensure_user uuid5 tg actor db) h (ensure_user-Outcome db)
    where
      go :
          (out : Result ServiceResult × Db)
          → out.0 ≡ ok r
          → Outcome tg db out
          → (u : Emby) × (a : Account) × (get_user tg out.1 ≡ some u)
            × (by_legacy_tg tg out.1 ≡ some a)
            × (r ≡ ensured tg a (is_new tg db))
            × (ensure_user uuid5 tg actor out.1 ≡ (ok (ensured tg a false), out.1))
      go (err e, s) q o = cc
      go (ok r', s) q (u, a, eu, ea, same) =
          (u, a, eu, ea, sym (ok_inj q) ∙ same, known s u a eu ea)
