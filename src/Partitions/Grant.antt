-- ===== src/Partitions/Grant.antt =====
-- `complete_grant` of repositories/partitions.py: how far a code extends a grant.
use sakura_embyboss.Prelude.{
  subst, max, ◌==◌, Bool, false, ◌&&◌, ℕ, ◌+◌, ◌*◌, ◌≤◌, ℤ, pos, ◌+ℤ◌, int_laws, true, ◌≡◌, refl,
  ◌∙◌, ap, inl, inr, Option, none, some, List, eq_string, eq_int, first, first_holds,
  first-replace_self, Bool-cases, arith, ==_refl, leb, ltb,
}
use sakura_embyboss.Exec.{ok, bind_ok}
use sakura_embyboss.Database.{Db, DateTime, Emby, PartitionCode, PartitionGrant}
use sakura_embyboss.Codes.Redeem.{add_days, in_calendar, max_datetime}
use sakura_embyboss.Partitions.{is_grant, get_grant}
use sakura_embyboss.PartitionGrants.{start_from, granted, put_grant, grant_until, complete_grant}

-- The expiry of a grant, if there is one.
abbrev pub expiry : Option PartitionGrant → DateTime
expiry none = 0
expiry (some g) = g.expires_at

start_from-max :
    (old : Option PartitionGrant) (now : DateTime) → start_from old now ≡ max now (expiry old)
start_from-max none now = omega arith
start_from-max (some g) now = elim (Bool-cases (ltb now g.expires_at)) [
  | inl h ↦ rw h (ground arith)
  | inr h ↦ rw h (ground arith)
]

plus_pos : (t k : ℕ) → pos t +ℤ pos k ≡ pos (t + k)
plus_pos t k = omega int_laws

in_calendar_pos : (t : ℕ) (db : Db) → t ≤ max_datetime → in_calendar (pos t) db ≡ (ok t, db)
unfolding in_calendar
in_calendar_pos t db h = let fits : leb t max_datetime ≡ true = ground arith in rw fits refl

add_days_pos :
    (t n : ℕ) (db : Db)
    → t + n * 86400000000 ≤ max_datetime
    → add_days t (pos n) db ≡ (ok (t + n * 86400000000), db)
unfolding add_days
add_days_pos t n db h =
    ap (λ z. in_calendar z db) (plus_pos t (n * 86400000000))
    ∙ in_calendar_pos (t + n * 86400000000) db h

granted_found :
    (r : PartitionCode) (tg : ℤ) (user : Emby) (now until : DateTime) (rows : List PartitionGrant)
    (old : Option PartitionGrant)
    → first (is_grant tg r.partition) rows ≡ old
    → first
        (is_grant tg r.partition)
        (put_grant tg r.partition (granted r tg user now until old) old rows)
      ≡ some (granted r tg user now until old)
unfolding first
granted_found r tg user now until rows none e =
    let hit : is_grant tg r.partition (granted r tg user now until none) ≡ true =
      rw (==_refl tg, ==_refl r.partition) refl in
    rw hit refl
granted_found r tg user now until rows (some g) e =
    first-replace_self (is_grant tg r.partition) (granted r tg user now until (some g)) rows
      (first_holds (is_grant tg r.partition) rows e) e

-- The columns of a grant that a redemption writes.
pub record Extended (r : PartitionCode) (tg : ℤ) (user : Emby) (until : DateTime)
    (g : PartitionGrant) : Type 0 where
  pub until_then : g.expires_at ≡ until
  pub active : g.status ≡ "active"
  pub by_code : g.code ≡ some r.code
  pub of_user : (g.tg == tg) ≡ true
  pub of_partition : (g.partition == r.partition) ≡ true
  pub of_account : g.embyid ≡ user.embyid

granted-Extended :
    (r : PartitionCode) (tg : ℤ) (user : Emby) (now until : DateTime) (old : Option PartitionGrant)
    (rows : List PartitionGrant)
    → first (is_grant tg r.partition) rows ≡ old
    → Extended r tg user until (granted r tg user now until old)
granted-Extended r tg user now until none rows found = record {
  until_then = refl;
  active = refl;
  by_code = refl;
  of_user = ==_refl tg;
  of_partition = ==_refl r.partition;
  of_account = refl;
}
granted-Extended r tg user now until (some g) rows found =
    let mine =
      both (g.tg == tg) (g.partition == r.partition)
        (first_holds (is_grant tg r.partition) rows found) in
    record {
      until_then = refl;
      active = refl;
      by_code = refl;
      of_user = mine.0;
      of_partition = mine.1;
      of_account = refl;
    }
  where
    both : (a b : Bool) → (a && b) ≡ true → (a ≡ true) × (b ≡ true)
    both true true h = (refl, refl)
    both true false h = cc
    both false b h = cc

-- A code of `days` days, which is not negative, extends the grant of a user for its partition to
-- `days` days after the old expiry or the present, whichever is later, so the grant is never cut
-- short: the row then on record for the user and the partition has that expiry, is active, and names
-- the code and the user's account. The new expiry is one that a calendar date can have.
pub complete_grant_lem :
    (r : PartitionCode) (tg : ℤ) (user : Emby) (now : DateTime) (days : ℕ) (db : Db)
    → r.duration_days ≡ pos days
    → start_from (get_grant tg r.partition db) now + days * 86400000000 ≤ max_datetime
    → let old = get_grant tg r.partition db in
      let until = max now (expiry old) + days * 86400000000 in
      ((complete_grant r tg user now db).0 ≡ ok until)
      × ((g : PartitionGrant) × (get_grant tg r.partition (complete_grant r tg user now db).1
            ≡ some g)
          × Extended r tg user until g)
unfolding complete_grant
complete_grant_lem r tg user now days db d fits =
    let old = get_grant tg r.partition db in
    let start = start_from old now in
    let until = start + days * 86400000000 in
    let added : add_days start r.duration_days db ≡ (ok until, db) =
      rw d (add_days_pos start days db fits) in
    let run =
      bind_ok (add_days start r.duration_days) (grant_until r tg user now old) db db until added in
    let later : start ≡ max now (expiry old) = start_from-max old now in
    let date : until ≡ max now (expiry old) + days * 86400000000 =
      ap (λ t. t + days * 86400000000) later in
    (
      ap (λ x. x.0) run ∙ ap ok date,
      (
        granted r tg user now until old,
        ap (λ x. get_grant tg r.partition x.1) run
            ∙ granted_found r tg user now until db.grants old refl,
        subst (λ t. Extended r tg user t (granted r tg user now until old)) date
            (granted-Extended r tg user now until old db.grants refl),
      ),
    )
