-- ===== src/Points/Audit.antt =====
-- Every balance is what the transactions on record add up to.
use sakura_embyboss.Prelude.{
  ℤ, pos, ◌+ℤ◌, +ℤ_assoc, String, Bool, false, ◌&&◌, ◌≡◌, refl, sym, ◌∙◌, ap, inl, inr, some, List,
  [], ◌∷◌, ◌==◌, eq_int, eq_string, if◌then◌else◌, first, replace, first_holds, first-replace_self,
  first-replace_other, Bool-cases, arith, some_inj, ==_refl, int_eq_iff, int_eq_sym,
}
use sakura_embyboss.Database.{Db, Emby, PointTransaction, has_tg, get_user}
use sakura_embyboss.Points.{Balance, iv, us}
use sakura_embyboss.Points.Posted.{name_of, other, balance, Posted}

abbrev is_for : ℤ → String → PointTransaction → Bool
is_for tg name t = t.tg == tg && t.balance_type == name

-- The sum of the amounts booked for a user's balance.
unfoldable pub total : ℤ → String → List PointTransaction → ℤ
total tg name [] = pos 0
total tg name (t ∷ ts) =
    let rest = total tg name ts in if is_for tg name t then rest +ℤ t.amount else rest

-- Each balance is its opening value and what was booked since.
pub record IsAudited (opening : ℤ → Balance → ℤ) (db : Db) : Type 0 where
  pub adds_up :
      (tg : ℤ) (field : Balance) (u : Emby)
      → get_user tg db ≡ some u
      → balance field u ≡ opening tg field +ℤ total tg (name_of field) db.transactions

pub get_user-tg : (tg : ℤ) (db : Db) (u : Emby) → get_user tg db ≡ some u → u.tg ≡ tg
get_user-tg tg db u h = (int_eq_iff u.tg tg).0 (first_holds (has_tg tg) db.users h)

-- Where a user is found after the write of one row.
module _ (db : Db) (tg : ℤ) (user user' : Emby) (found : get_user tg db ≡ some user)
    (same : user'.tg ≡ user.tg) where
  pub get_user-write_self : first (has_tg tg) (replace (has_tg user.tg) user' db.users) ≡ some user'
  get_user-write_self = rw (get_user-tg tg db user found) (
      first-replace_self (has_tg tg) user' db.users
        (rw (same ∙ get_user-tg tg db user found) ((int_eq_iff tg tg).1 refl)) found)

  pub get_user-write_other :
      (tg' : ℤ)
      → (tg' == tg) ≡ false
      → first (has_tg tg') (replace (has_tg user.tg) user' db.users) ≡ get_user tg' db
  get_user-write_other tg' ne =
      first-replace_other (has_tg user.tg) (has_tg tg') user' db.users
        (λ x h. apart x.tg ((int_eq_iff x.tg user.tg).0 h)) (apart user'.tg same)
    where
      apart : (t : ℤ) → t ≡ user.tg → (t == tg') ≡ false
      apart t e = rw (e ∙ get_user-tg tg db user found) (int_eq_sym tg tg' ∙ ne)

total-add_self :
    (tg : ℤ) (field : Balance) (t : PointTransaction) (ts : List PointTransaction)
    → t.tg ≡ tg
    → t.balance_type ≡ name_of field
    → total tg (name_of field) (t ∷ ts) ≡ total tg (name_of field) ts +ℤ t.amount
unfolding total
total-add_self tg field t ts e f = rw (e, f, ==_refl tg, ==_refl (name_of field))

total-add_tg :
    (tg : ℤ) (name : String) (t : PointTransaction) (ts : List PointTransaction)
    → (t.tg == tg) ≡ false
    → total tg name (t ∷ ts) ≡ total tg name ts
unfolding total
total-add_tg tg name t ts e = rw e

total-add_other :
    (tg : ℤ) (field : Balance) (t : PointTransaction) (ts : List PointTransaction)
    → t.balance_type ≡ name_of field
    → total tg (name_of (other field)) (t ∷ ts) ≡ total tg (name_of (other field)) ts
unfolding total
total-add_other tg iv t ts e = rw e (ground arith)
total-add_other tg us t ts e = rw e (ground arith)

-- The row of the user after a posting.
pub Posted-user :
    (before after : Db) (tg : ℤ) (field : Balance) (amount : ℤ) (change : Emby → Emby)
    → (p : Posted before after tg field amount change) → get_user tg after ≡ some p.user'
Posted-user before after tg field amount change p =
    rw p.users (get_user-write_self before tg p.user p.user' p.found p.same_tg)

module _ (opening : ℤ → Balance → ℤ) (before after : Db) (tg : ℤ) (field : Balance) (amount : ℤ)
    (change : Emby → Emby) (p : Posted before after tg field amount change)
    (h : IsAudited opening before) where
  entry_tg : p.entry.tg ≡ tg
  entry_tg = p.entry_tg ∙ get_user-tg tg before p.user p.found

  audited_self :
      balance field p.user' ≡ opening tg field +ℤ total tg (name_of field) after.transactions
  audited_self =
      rw
        (
          p.transactions,
          total-add_self tg field p.entry before.transactions entry_tg p.entry_type,
          p.moved,
          h.adds_up tg field p.user p.found,
          p.entry_amount,
        )
        (+ℤ_assoc _ _ _)

  audited_other :
      balance (other field) p.user'
      ≡ opening tg (other field) +ℤ total tg (name_of (other field)) after.transactions
  audited_other =
      rw
        (
          p.transactions,
          total-add_other tg field p.entry before.transactions p.entry_type,
          p.others,
        )
        (h.adds_up tg (other field) p.user p.found)

  -- At another user nothing has moved.
  audited_apart :
      (tg' : ℤ) (field' : Balance) (u : Emby)
      → (tg' == tg) ≡ false
      → get_user tg' after ≡ some u
      → balance field' u ≡ opening tg' field' +ℤ total tg' (name_of field') after.transactions
  audited_apart tg' field' u ne found =
      rw
        (
          p.transactions,
          total-add_tg tg' (name_of field') p.entry before.transactions
              (rw entry_tg (int_eq_sym tg tg' ∙ ne)),
        )
        (h.adds_up tg' field' u (
          sym (get_user-write_other before tg p.user p.user' p.found p.same_tg tg' ne)
          ∙ rw p.users at found))

-- Both balances, from one and the other.
pub both : (P : Balance → Type 0) (field field' : Balance) → P field → P (other field) → P field'
both P iv iv a b = a
both P iv us a b = b
both P us iv a b = b
both P us us a b = a

pub Posted-IsAudited :
    (opening : ℤ → Balance → ℤ) (before after : Db) (tg : ℤ) (field : Balance) (amount : ℤ)
    (change : Emby → Emby)
    → Posted before after tg field amount change
    → IsAudited opening before
    → IsAudited opening after
Posted-IsAudited opening before after tg field amount change p h = record {
  adds_up = λ tg' field' u found. elim (Bool-cases (tg' == tg)) [
    | inl e ↦
        let here = (int_eq_iff tg' tg).0 e in
        let at_user : u ≡ p.user' = some_inj (
          sym found
          ∙ ap (λ t. get_user t after) here
          ∙ Posted-user before after tg field amount change p) in
        rw (here, at_user)
          (both (λ f. balance f p.user' ≡ opening tg f +ℤ total tg (name_of f) after.transactions)
            field field' (audited_self opening before after tg field amount change p h)
            (audited_other opening before after tg field amount change p h))
    | inr ne ↦ audited_apart opening before after tg field amount change p h tg' field' u ne found
  ];
}
