-- ===== src/Points/Mirror.antt =====
-- The wallet of an account follows the balance of its user.
use text.Mathlib.TextEquality.{eq_iff}
use sakura_embyboss.Prelude.{
  ℤ, String, true, false, ◌&&◌, ◌≡◌, refl, sym, ◌∙◌, ap, inl, inr, ◌+◌, Option, none, some, List,
  ◌==◌, eq_int, eq_string, first, first_holds, first-replace_self, first-replace_other, Bool-cases,
  Option-cases, arith, ==_refl, int_eq_iff, some_inj,
}
use sakura_embyboss.Database.{Db, Emby, Account, AccountWallet, get_user, by_legacy_tg}
use sakura_embyboss.Operations.{is_wallet, put_wallet}
use sakura_embyboss.Points.{Balance, iv, us}
use sakura_embyboss.Points.Posted.{name_of, other, balance, Posted}
use sakura_embyboss.Points.Audit.{both, get_user-tg, get_user-write_self, get_user-write_other}

-- The wallets after `put_wallet`, whether the wallet is new or not.
module _ (id name : String) (v : ℤ) (rows : List AccountWallet) where
  -- the row that the lookup after a write finds
  abbrev rewritten : Option AccountWallet → AccountWallet
  rewritten none = record { account_id = id; balance_type = name; balance = v; revision = 1 }
  rewritten (some w) = record w { balance = v; revision = w.revision + 1 }

  balance-rewritten : (old : Option AccountWallet) → (rewritten old).balance ≡ v
  balance-rewritten none = refl
  balance-rewritten (some w) = refl

  is_wallet-rewritten :
      (old : Option AccountWallet)
      → first (is_wallet id name) rows ≡ old
      → is_wallet id name (rewritten old) ≡ true
  is_wallet-rewritten none e = rw (==_refl id, ==_refl name)
  is_wallet-rewritten (some w) e = first_holds (is_wallet id name) rows e

  put_wallet_self :
      (old : Option AccountWallet)
      → first (is_wallet id name) rows ≡ old
      → first (is_wallet id name) (put_wallet id name v old rows) ≡ some (rewritten old)
  unfolding put_wallet first
  put_wallet_self none e = rw (is_wallet-rewritten none e)
  put_wallet_self (some w) e =
      first-replace_self (is_wallet id name) (rewritten (some w)) rows
        (is_wallet-rewritten (some w) e) e

  -- No wallet passes the tests of two different keys.
  is_wallet-apart :
      (id' name' : String)
      → (id == id' && name == name') ≡ false
      → (x : AccountWallet) → is_wallet id name x ≡ true
      → is_wallet id' name' x ≡ false
  is_wallet-apart id' name' apart x h = ground (
    arith,
    eq_iff x.account_id id,
    eq_iff x.account_id id',
    eq_iff id id',
    eq_iff x.balance_type name,
    eq_iff x.balance_type name',
    eq_iff name name',
  )

  put_wallet-other :
      (old : Option AccountWallet) (id' name' : String)
      → first (is_wallet id name) rows ≡ old
      → (id == id' && name == name') ≡ false
      → first (is_wallet id' name') (put_wallet id name v old rows)
        ≡ first (is_wallet id' name') rows
  unfolding put_wallet first
  put_wallet-other none id' name' e apart =
      rw (is_wallet-apart id' name' apart (rewritten none) (is_wallet-rewritten none e))
  put_wallet-other (some w) id' name' e apart =
      first-replace_other (is_wallet id name) (is_wallet id' name') (rewritten (some w)) rows
        (is_wallet-apart id' name' apart)
        (is_wallet-apart id' name' apart (rewritten (some w)) (is_wallet-rewritten (some w) e))

-- Account numbers are set and unique, and each wallet holds the balance of its user.
pub record IsMirrored (db : Db) : Type 0 where
  pub named : (tg : ℤ) (a : Account) → by_legacy_tg tg db ≡ some a → (a.id == "") ≡ false
  pub apart :
      (tg tg' : ℤ) (a a' : Account)
      → by_legacy_tg tg db ≡ some a
      → by_legacy_tg tg' db ≡ some a'
      → a.id ≡ a'.id
      → tg ≡ tg'
  pub held :
      (tg : ℤ) (field : Balance) (u : Emby) (a : Account) (w : AccountWallet)
      → get_user tg db ≡ some u
      → by_legacy_tg tg db ≡ some a
      → first (is_wallet a.id (name_of field)) db.wallets ≡ some w
      → w.balance ≡ balance field u

module _ (before after : Db) (tg : ℤ) (field : Balance) (amount : ℤ) (change : Emby → Emby)
    (p : Posted before after tg field amount change) (h : IsMirrored before) where
  abbrev new : ℤ
  new = balance field p.user'

  -- The wallets of an account after the posting, by the account of the user who has moved.
  wallets_self :
      (a : Account)
      → by_legacy_tg tg before ≡ some a
      → after.wallets
        ≡ put_wallet a.id
            (name_of field)
            new
            (first (is_wallet a.id (name_of field)) before.wallets)
            before.wallets
  wallets_self a e = p.wallets ∙ rw (get_user-tg tg before p.user p.found, e, h.named tg a e)

  wallets-none : by_legacy_tg tg before ≡ none → after.wallets ≡ before.wallets
  wallets-none e = p.wallets ∙ rw (get_user-tg tg before p.user p.found, e)

  held_self :
      (a : Account) (w : AccountWallet)
      → by_legacy_tg tg before ≡ some a
      → first (is_wallet a.id (name_of field)) after.wallets ≡ some w
      → w.balance ≡ new
  held_self a w e f =
      let old = first (is_wallet a.id (name_of field)) before.wallets in
      let here : w ≡ rewritten a.id (name_of field) new before.wallets old = some_inj (
        sym f
        ∙ rw (wallets_self a e)
            (put_wallet_self a.id (name_of field) new before.wallets old refl)) in
      ap (λ x. x.balance) here ∙ balance-rewritten a.id (name_of field) new before.wallets old

  -- A wallet under another key is as it was.
  wallet_apart :
      (id name : String)
      → ((a : Account)
          → by_legacy_tg tg before ≡ some a
          → (a.id == id && name_of field == name) ≡ false)
      → first (is_wallet id name) after.wallets ≡ first (is_wallet id name) before.wallets
  wallet_apart id name apart = elim (Option-cases (by_legacy_tg tg before)) [
    | inl e ↦ rw (wallets-none e)
    | inr (a, e) ↦
        rw (wallets_self a e)
          (put_wallet-other a.id (name_of field) new before.wallets _ id name refl (apart a e))
  ]

  account_before : (tg' : ℤ) → by_legacy_tg tg' after ≡ by_legacy_tg tg' before
  account_before tg' = rw p.accounts

  user_here : (u : Emby) → get_user tg after ≡ some u → u ≡ p.user'
  user_here u e =
      some_inj (sym e ∙ rw p.users (get_user-write_self before tg p.user p.user' p.found p.same_tg))

  held_other :
      (u : Emby) (a : Account) (w : AccountWallet)
      → by_legacy_tg tg before ≡ some a
      → first (is_wallet a.id (name_of (other field))) after.wallets ≡ some w
      → w.balance ≡ balance (other field) p.user'
  held_other u a w e f =
      h.held tg (other field) p.user a w p.found e
        (sym (wallet_apart a.id (name_of (other field)) (λ b _. names_apart field b.id a.id)) ∙ f)
      ∙ sym p.others
    where
      names_apart :
          (field : Balance) (id id' : String)
          → (id == id' && name_of field == name_of (other field)) ≡ false
      names_apart iv id id' = ground arith
      names_apart us id id' = ground arith

  held_apart :
      (tg' : ℤ) (field' : Balance) (u : Emby) (a : Account) (w : AccountWallet)
      → (tg' == tg) ≡ false
      → get_user tg' after ≡ some u
      → by_legacy_tg tg' before ≡ some a
      → first (is_wallet a.id (name_of field')) after.wallets ≡ some w
      → w.balance ≡ balance field' u
  held_apart tg' field' u a w ne fu fa fw =
      h.held tg' field' u a w
        (sym (get_user-write_other before tg p.user p.user' p.found p.same_tg tg' ne)
          ∙ rw p.users at fu)
        fa (sym (wallet_apart a.id (name_of field') (λ b e. ids_apart b e)) ∙ fw)
    where
      ids_apart :
          (b : Account)
          → by_legacy_tg tg before ≡ some b
          → (b.id == a.id && name_of field == name_of field') ≡ false
      ids_apart b e = elim (Bool-cases (b.id == a.id)) [
        | inl same ↦
            cc (
              ne,
              (int_eq_iff tg' tg).1 (sym (h.apart tg tg' b a e fa ((eq_iff b.id a.id).0 same))),
            )
        | inr differ ↦ rw differ
      ]

pub Posted-IsMirrored :
    (before after : Db) (tg : ℤ) (field : Balance) (amount : ℤ) (change : Emby → Emby)
    → Posted before after tg field amount change
    → IsMirrored before
    → IsMirrored after
Posted-IsMirrored before after tg field amount change p h = record {
  named = λ t a e. h.named t a (rw p.accounts at e);
  apart = λ t t' a a' e e'. h.apart t t' a a' (rw p.accounts at e) (rw p.accounts at e');
  held = λ t f u a w eu ea ew. elim (Bool-cases (t == tg)) [
    | inl e ↦
        let here = (int_eq_iff t tg).0 e in
        let acct : by_legacy_tg tg before ≡ some a =
          ap (λ x. by_legacy_tg x before) (sym here) ∙ rw p.accounts at ea in
        rw
          (user_here before after tg field amount change p h u
            (ap (λ x. get_user x after) (sym here) ∙ eu))
          (both
            (λ f'.
              first (is_wallet a.id (name_of f')) after.wallets ≡ some w
              → w.balance ≡ balance f' p.user')
            field f (held_self before after tg field amount change p h a w acct)
            (held_other before after tg field amount change p h u a w acct) ew)
    | inr ne ↦
        held_apart before after tg field amount change p h t f u a w ne eu (rw p.accounts at ea) ew
  ];
}
