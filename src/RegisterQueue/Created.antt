-- ===== src/RegisterQueue/Created.antt =====
-- `_process_job` of func_helper/register_queue.py: when it makes an account.
use sakura_embyboss.Prelude.{
  ℕ, ◌+◌, ◌≤◌, pos, Bool, true, false, not, ◌&&◌, ◌≡◌, refl, sym, ◌∙◌, ◌⊎◌, inl, inr, Option, none,
  some, leb, truthy, arith, Bool-cases, if◌then◌else◌, subst,
}
use sakura_embyboss.Database.{DateTime, Emby}
use sakura_embyboss.RegisterQueue.{
  RegisterJob, Open, Rows, has_account, unqualified, full, rolled_back, created, Creation,
  has_no_days, registered, update_target, save_created, after_creation, process_current,
  process_job,
}

-- The row `u`, which was `row`, with the account that the server made for the job.
pub record HasAccount (job : RegisterJob) (now : DateTime) (made : Creation) (row u : Emby)
    : Type 0 where
  pub same_user : u.tg ≡ row.tg
  pub with_embyid : u.embyid ≡ some made.0
  pub with_pwd : u.pwd ≡ some made.1
  pub until : u.ex ≡ some made.2
  pub with_name : u.name ≡ some job.username
  pub with_pwd2 : u.pwd2 ≡ some job.pwd2
  pub of_level : u.lv ≡ some "b"
  pub since : u.cr ≡ some now
  pub days_left : u.us ≡ (if job.stats then row.us else some (pos 0))
  pub same_coins : u.iv ≡ row.iv

registered-HasAccount :
    (job : RegisterJob) (now : DateTime) (made : Creation) (row : Emby)
    → HasAccount job now made row (registered job now made row)
unfolding registered
registered-HasAccount job now (eid, pwd, ex) row = elim (Bool-cases job.stats) [
  | inl h ↦ record {
    same_user = rw h refl;
    with_embyid = rw h refl;
    with_pwd = rw h refl;
    until = rw h refl;
    with_name = rw h refl;
    with_pwd2 = rw h refl;
    of_level = rw h refl;
    since = rw h refl;
    days_left = rw h refl;
    same_coins = rw h refl;
  }
  | inr h ↦ record {
    same_user = rw h refl;
    with_embyid = rw h refl;
    with_pwd = rw h refl;
    until = rw h refl;
    with_name = rw h refl;
    with_pwd2 = rw h refl;
    of_level = rw h refl;
    since = rw h refl;
    days_left = rw h refl;
    same_coins = rw h refl;
  }
]

-- What must have held when a job ended with the row `u` of its user.
pub record Justified (o : Open) (job : RegisterJob) (now : DateTime) (tem : ℕ)
    (made : Option Creation) (rows : Rows) (u : Emby) : Type 0 where
  pub row : Emby
  pub row' : Emby
  pub target : Emby
  pub made_one : Creation
  pub was : rows.current ≡ some row
  pub had_none : truthy row.embyid ≡ false
  pub entitled : (job.stats ≡ true) ⊎ (has_no_days row ≡ false)
  pub fits : tem + 1 ≤ o.all_user
  pub answered : made ≡ some made_one
  pub still : rows.refreshed ≡ some row'
  pub still_none : truthy row'.embyid ≡ false
  pub writes : rows.target ≡ some target
  pub committed : rows.stored ≡ true
  pub account : HasAccount job now made_one target u

created_inj : {u v : Emby} → created u ≡ created v → v ≡ u
created_inj h = cc

entitled_if : (stats poor : Bool) → (not stats && poor) ≡ false → (stats ≡ true) ⊎ (poor ≡ false)
entitled_if true poor h = inl refl
entitled_if false poor h = inr h

module _ (o : Open) (job : RegisterJob) (now : DateTime) (tem : ℕ) (rows : Rows) (u : Emby) where
  -- What is known before the server is asked.
  record Asked (row : Emby) : Type 0 where
    was : rows.current ≡ some row
    had_none : truthy row.embyid ≡ false
    entitled : (job.stats ≡ true) ⊎ (has_no_days row ≡ false)
    fits : tem + 1 ≤ o.all_user

  written :
      (row row' : Emby) (made_one : Creation) (target : Option Emby) (stored : Bool)
      → Asked row
      → rows.refreshed ≡ some row'
      → truthy row'.embyid ≡ false
      → rows.target ≡ target
      → rows.stored ≡ stored
      → update_target job now made_one target stored ≡ created u
      → Justified o job now tem (some made_one) rows u
  written row row' (eid, pwd, ex) none stored a still free t s h = cc
  written row row' (eid, pwd, ex) (some w) false a still free t s h = cc
  written row row' (eid, pwd, ex) (some w) true a still free t s h = record {
    row = row;
    row' = row';
    target = w;
    made_one = (eid, pwd, ex);
    was = a.was;
    had_none = a.had_none;
    entitled = a.entitled;
    fits = a.fits;
    answered = refl;
    still = still;
    still_none = free;
    writes = t;
    committed = s;
    account =
        subst (HasAccount job now (eid, pwd, ex) w) (sym (created_inj h))
          (registered-HasAccount job now (eid, pwd, ex) w);
  }

  saved :
      (row : Emby) (made_one : Creation) (refreshed : Option Emby)
      → Asked row
      → rows.refreshed ≡ refreshed
      → save_created job now made_one refreshed rows.target rows.stored ≡ created u
      → Justified o job now tem (some made_one) rows u
  saved row (eid, pwd, ex) none a still h = cc
  saved row (eid, pwd, ex) (some row') a still h = elim (Bool-cases (truthy row'.embyid)) [
    | inl e ↦
        let q : save_created job now (eid, pwd, ex) (some row') rows.target rows.stored
            ≡ rolled_back eid =
          rw e refl in
        cc (sym q ∙ h)
    | inr e ↦
        let q : save_created job now (eid, pwd, ex) (some row') rows.target rows.stored
            ≡ update_target job now (eid, pwd, ex) rows.target rows.stored =
          rw e refl in
        written row row' (eid, pwd, ex) rows.target rows.stored a still e refl refl (sym q ∙ h)
  ]

  answered_by :
      (row : Emby) (made : Option Creation)
      → Asked row
      → after_creation job now rows made ≡ created u
      → Justified o job now tem made rows u
  answered_by row none a h = cc
  answered_by row (some data') a h = saved row data' rows.refreshed a refl h

  from_current :
      (made : Option Creation) (current : Option Emby)
      → rows.current ≡ current
      → process_current o job now tem made rows current ≡ created u
      → Justified o job now tem made rows u
  from_current made none was h = cc
  from_current made (some row) was h = elim (Bool-cases (truthy row.embyid)) [
    | inl a ↦
        let q : process_current o job now tem made rows (some row) ≡ has_account = rw a refl in
        cc (sym q ∙ h)
    | inr a ↦ elim (Bool-cases (not job.stats && has_no_days row)) [
      | inl b ↦
          let q : process_current o job now tem made rows (some row) ≡ unqualified =
            rw (a, b) refl in
          cc (sym q ∙ h)
      | inr b ↦ elim (Bool-cases (leb o.all_user tem)) [
        | inl c ↦
            let q : process_current o job now tem made rows (some row) ≡ full = rw (a, b, c) refl in
            cc (sym q ∙ h)
        | inr c ↦
            let q : process_current o job now tem made rows (some row)
                ≡ after_creation job now rows made =
              rw (a, b, c) refl in
            answered_by row made
              (record {
                was = was;
                had_none = a;
                entitled = entitled_if job.stats (has_no_days row) b;
                fits = ground arith;
              })
              (sym q ∙ h)
      ]
    ]
  ]

  -- A job ends with a new account only if the row read for its user had none before and after the
  -- server made it, the job is free or that row has days of registration, and the limit is not
  -- reached. The row of the user's tg is then stored with the account that the server made, its
  -- identifier, password and expiry, with the name and the second password of the job, and without
  -- days unless the job is free.
  pub process_job-Justified :
      (made : Option Creation)
      → process_job o job now tem made rows ≡ created u
      → Justified o job now tem made rows u
  unfolding process_job
  process_job-Justified made h = from_current made rows.current refl h
