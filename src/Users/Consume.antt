-- ===== src/Users/Consume.antt =====
-- What `complete_registration` of application/user_service.py does to a user and the balances.
use sakura_embyboss.Prelude.{
  some_inj, if◌then◌else◌, ℤ, pos, neg, ◌+ℤ◌, int_laws, leb_ℤ, or_zero, Bool, true, false, ◌&&◌,
  ◌≡◌, refl, sym, subst, ◌∙◌, ap, ◌⊎◌, inl, inr, Option, none, some, ◌==◌, eq_int, eq_string,
  int_eq_iff, truthy, replace, Bool-cases,
}
use sakura_embyboss.Exec.{Result, ok, err, integrity_error, settle, bind_ok, bind_err, ◌>>◌, ok_inj}
use sakura_embyboss.Database.{Db, ServiceResult, is_ok, Emby, has_tg, get_user, by_legacy_tg}
use sakura_embyboss.Operations.{audit, event, point_transaction, transaction_of}
use sakura_embyboss.Operations.Booking.{booked, point_transaction_cases}
use sakura_embyboss.Points.{us}
use sakura_embyboss.Points.Posted.{Posted}
use sakura_embyboss.Points.Audit.{Posted-user, get_user-write_self, get_user-tg}
use sakura_embyboss.Users.Registration.{
  Registration, bound, consume_posting, lacks_days, register_if, post_days, consume_if, consume,
  log_registered, register, complete_registration,
}

-- The row once the days are consumed.
abbrev pub consumed : Registration → Emby → Emby
consumed call user = record (bound call user) { us = some (pos 0) }

module _ (call : Registration) (db : Db) where
  -- A registration with no days to consume writes the row and nothing else of the balances.
  pub record Binds (user : Emby) (after : Db) : Type 0 where
    pub users : after.users ≡ replace (has_tg user.tg) (bound call user) db.users
    pub transactions : after.transactions ≡ db.transactions
    pub accounts : after.accounts ≡ db.accounts
    pub wallets : after.wallets ≡ db.wallets

  abbrev pub Registers : Emby → Db → Type 0
  Registers user after =
      (get_user call.tg db ≡ some user)
      × (truthy user.embyid ≡ false)
      × (((call.consume_qualification ≡ false) × Binds user after)
          ⊎ ((call.consume_qualification ≡ true)
              × (leb_ℤ (or_zero user.us) (pos 0) ≡ false)
              × Posted db after call.tg us (neg (or_zero user.us)) (consumed call)))

  -- The row `u`, which was `user`, with the account of the call.
  pub record HasAccount (user u : Emby) : Type 0 where
    pub with_embyid : u.embyid ≡ some call.embyid
    pub with_name : u.name ≡ some call.name
    pub with_pwd : u.pwd ≡ some call.pwd
    pub with_pwd2 : u.pwd2 ≡ some call.pwd2
    pub of_level : u.lv ≡ some "b"
    pub since : u.cr ≡ some call.now
    pub until : u.ex ≡ some call.expires_at
    pub same_coins : u.iv ≡ user.iv
    pub days_left : u.us ≡ (if call.consume_qualification then some (pos 0) else user.us)

  abbrev Outcome : Result ServiceResult × Db → Type 0
  Outcome (err e, s) = Unit
  Outcome (ok r, s) = ((is_ok r ≡ false) × (s ≡ db)) ⊎ ((user : Emby) × Registers user s)

  abbrev pub Settled : Result ServiceResult × Db → Type 0
  Settled (err e, s) = s ≡ db
  Settled (ok r, s) = ((is_ok r ≡ false) × (s ≡ db)) ⊎ ((user : Emby) × Registers user s)

  settle-Outcome : (out : Result ServiceResult × Db) → Outcome out → Settled (settle out.0 db out.1)
  settle-Outcome (err e, s) h = refl
  settle-Outcome (ok r, s) h = h

  not_zero : (n : ℤ) → leb_ℤ n (pos 0) ≡ false → (n == pos 0) ≡ false
  not_zero n h = elim (Bool-cases (n == pos 0)) [
    | inl e ↦
        let zero_le : leb_ℤ n (pos 0) ≡ true = rw ((int_eq_iff n (pos 0)).0 e) refl in
        cc (sym zero_le ∙ h)
    | inr e ↦ e
  ]

  cancels : (n : ℤ) → pos 0 ≡ n +ℤ neg n
  cancels n = omega int_laws

  consuming :
      (user : Emby)
      → get_user call.tg db ≡ some user
      → truthy user.embyid ≡ false
      → call.consume_qualification ≡ true
      → leb_ℤ (or_zero user.us) (pos 0) ≡ false
      → Outcome ((consume call user >> log_registered call) db)
  unfolding log_registered audit event consume
  consuming user found free c days =
      let p = consume_posting call (or_zero user.us) in
      let s = record db { users = replace (has_tg user.tg) (consumed call user) db.users } in
      let run : consume call user db ≡ point_transaction p s =
        ap (λ b. consume_if call user b db) c
        ∙ ap (λ b. post_days call (or_zero user.us) b s) (not_zero (or_zero user.us) days) in
      elim (point_transaction_cases p s) [
        | inl (t, e) ↦
            subst Outcome
              (sym (
                bind_err (consume call user) (λ _. log_registered call) db t integrity_error
                  (run ∙ e)))
              tt
        | inr e ↦
            subst Outcome
              (sym (
                bind_ok (consume call user) (λ _. log_registered call) db (booked p s) tt
                  (run ∙ e)))
              (inr (
                user,
                (
                  found,
                  free,
                  inr (
                    c,
                    days,
                    record {
                      user = user;
                      user' = consumed call user;
                      entry = transaction_of db.next_transaction (by_legacy_tg call.tg s) p;
                      found = found;
                      changed = refl;
                      same_tg = refl;
                      users = refl;
                      moved = cancels (or_zero user.us);
                      others = refl;
                      transactions = refl;
                      entry_tg = sym (get_user-tg call.tg db user found);
                      entry_type = refl;
                      entry_amount = refl;
                      entry_after = refl;
                      accounts = refl;
                      wallets = rw (get_user-tg call.tg db user found) refl;
                    },
                  ),
                ),
              ))
      ]

  keeping :
      (user : Emby)
      → get_user call.tg db ≡ some user
      → truthy user.embyid ≡ false
      → call.consume_qualification ≡ false
      → Outcome ((consume call user >> log_registered call) db)
  unfolding log_registered audit event consume
  keeping user found free c =
      let s = record db { users = replace (has_tg user.tg) (bound call user) db.users } in
      let run : consume call user db ≡ (ok tt, s) = ap (λ b. consume_if call user b db) c in
      subst Outcome (sym (bind_ok (consume call user) (λ _. log_registered call) db s tt run)) (
        inr (
          user,
          (
            found,
            free,
            inl (c, record { users = refl; transactions = refl; accounts = refl; wallets = refl }),
          ),
        ))

  open-Outcome :
      (user : Emby) (bound_already lacking : Bool)
      → get_user call.tg db ≡ some user
      → truthy user.embyid ≡ bound_already
      → lacks_days call user ≡ lacking
      → Outcome (register_if call user bound_already lacking db)
  open-Outcome user true lacking found a d = inl (refl, refl)
  open-Outcome user false true found a d = inl (refl, refl)
  open-Outcome user false false found a d = elim (Bool-cases call.consume_qualification) [
    | inr c ↦ keeping user found a c
    | inl c ↦
        consuming user found a c
          (enough call.consume_qualification (leb_ℤ (or_zero user.us) (pos 0)) c d)
  ]
    where
      enough : (b poor : Bool) → b ≡ true → (b && poor) ≡ false → poor ≡ false
      enough true poor h d = d
      enough false poor h d = cc

  register-Outcome : (o : Option Emby) → get_user call.tg db ≡ o → Outcome (register call o db)
  register-Outcome none found = inl (refl, refl)
  register-Outcome (some user) found =
      open-Outcome user (truthy user.embyid) (lacks_days call user) found refl refl

  pub call-Settled : Settled (complete_registration call db)
  unfolding complete_registration
  call-Settled =
      settle-Outcome (register call (get_user call.tg db) db)
        (register-Outcome (get_user call.tg db) refl)

  -- A registration that succeeds is of a user without an account, whose row then has the account of
  -- the call: its identifier, name, passwords, level, and dates, and the coins as before. If it consumes
  -- the qualification, the user had days, and one posting takes all of them, so that none is left; else
  -- no balance, transaction or wallet changes.
  pub registration_of_user :
      (r : ServiceResult)
      → (complete_registration call db).0 ≡ ok r
      → is_ok r ≡ true
      → (user : Emby) × (Registers user (complete_registration call db).1
          × ((u : Emby) × (get_user call.tg (complete_registration call db).1 ≡ some u)
              × HasAccount user u))
  registration_of_user r h good = go (complete_registration call db) h call-Settled
    where
      account :
          (user : Emby) (s : Db)
          → Registers user s
          → (u : Emby) × (get_user call.tg s ≡ some u) × HasAccount user u
      account user s (found, free, inl (c, b)) = (
        bound call user,
        rw b.users (get_user-write_self db call.tg user (bound call user) found refl),
        record {
          with_embyid = refl;
          with_name = refl;
          with_pwd = refl;
          with_pwd2 = refl;
          of_level = refl;
          since = refl;
          until = refl;
          same_coins = refl;
          days_left = rw c refl;
        },
      )
      account user s (found, free, inr (c, days, p)) =
          let before : p.user ≡ user = some_inj (sym p.found ∙ found) in
          let after : p.user' ≡ consumed call user = p.changed ∙ ap (consumed call) before in
          (
            consumed call user,
            Posted-user db s call.tg us (neg (or_zero user.us)) (consumed call) p ∙ ap some after,
            record {
              with_embyid = refl;
              with_name = refl;
              with_pwd = refl;
              with_pwd2 = refl;
              of_level = refl;
              since = refl;
              until = refl;
              same_coins = refl;
              days_left = rw c refl;
            },
          )

      go :
          (out : Result ServiceResult × Db)
          → out.0 ≡ ok r
          → Settled out
          → (user : Emby) × (Registers user out.1
              × ((u : Emby) × (get_user call.tg out.1 ≡ some u) × HasAccount user u))
      go (err e, s) q o = cc
      go (ok r', s) q (inl (bad, same)) = cc (ap is_ok (ok_inj q))
      go (ok r', s) q (inr (user, done)) = (user, (done, account user s done))
