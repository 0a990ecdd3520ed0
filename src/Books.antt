-- ===== src/Books.antt =====
-- The books of the bot, over the services of legacy/v2/bot/application that change balances: what a
-- call may do to users, transactions and wallets, and what stays true of them.
mod Tests
pub mod Redeem
pub mod Services
use sakura_embyboss.Prelude.{
  ℤ, ◌+ℤ◌, Bool, true, false, ◌≡◌, refl, sym, ◌∙◌, ap, inl, inr, Option, none, some, ◌==◌, eq_int,
  eq_string, first, replace, Bool-cases, some_inj, int_eq_iff, List, String, subst,
}
use sakura_embyboss.Database.{Db, Emby, Account, AccountWallet, has_tg, get_user, by_legacy_tg}
use sakura_embyboss.Operations.{is_wallet}
use sakura_embyboss.Points.{Balance, iv, us}
use sakura_embyboss.Points.Posted.{name_of, balance, Posted}
use sakura_embyboss.Points.Audit.{
  total, IsAudited, get_user-tg, get_user-write_self, get_user-write_other, both, Posted-IsAudited,
}
use sakura_embyboss.Points.Mirror.{IsMirrored, Posted-IsMirrored}

-- The tables of the books as they were.
pub record Untouched (before after : Db) : Type 0 where
  pub users : after.users ≡ before.users
  pub transactions : after.transactions ≡ before.transactions
  pub accounts : after.accounts ≡ before.accounts
  pub wallets : after.wallets ≡ before.wallets

-- Columns of one user other than the balances.
pub record Rewritten (before after : Db) (tg : ℤ) : Type 0 where
  pub user : Emby
  pub user' : Emby
  pub found : get_user tg before ≡ some user
  pub same_tg : user'.tg ≡ user.tg
  pub kept : (field : Balance) → balance field user' ≡ balance field user
  pub users : after.users ≡ replace (has_tg user.tg) user' before.users
  pub transactions : after.transactions ≡ before.transactions
  pub accounts : after.accounts ≡ before.accounts
  pub wallets : after.wallets ≡ before.wallets

-- What one call does to the books.
pub data Move (before after : Db) : Type 0 where
  untouched : Untouched before after → Move before after
  rewrites : (tg : ℤ) → Rewritten before after tg → Move before after
  posts :
      (tg : ℤ) (field : Balance) (amount : ℤ) (change : Emby → Emby)
      → Posted before after tg field amount change
      → Move before after

module _ (before after : Db) (tg : ℤ) (w : Rewritten before after tg) where
  user_after : get_user tg after ≡ some w.user'
  user_after = rw w.users (get_user-write_self before tg w.user w.user' w.found w.same_tg)

  -- A user after the call has the balances of a user before it.
  balances_before :
      (tg' : ℤ) (field : Balance) (u : Emby)
      → get_user tg' after ≡ some u
      → (v : Emby) × (get_user tg' before ≡ some v) × (balance field u ≡ balance field v)
  balances_before tg' field u found = elim (Bool-cases (tg' == tg)) [
    | inl e ↦
        let here : tg' ≡ tg = (int_eq_iff tg' tg).0 e in
        let this : w.user' ≡ u =
          some_inj (sym user_after ∙ ap (λ t. get_user t after) (sym here) ∙ found) in
        (
          w.user,
          ap (λ t. get_user t before) here ∙ w.found,
          ap (balance field) (sym this) ∙ w.kept field,
        )
    | inr ne ↦
        let same : get_user tg' after ≡ get_user tg' before =
          ap (first (has_tg tg')) w.users
          ∙ get_user-write_other before tg w.user w.user' w.found w.same_tg tg' ne in
        (u, sym same ∙ found, refl)
  ]

  Rewritten-IsAudited :
      (opening : ℤ → Balance → ℤ) → IsAudited opening before → IsAudited opening after
  Rewritten-IsAudited opening h = record {
    adds_up = λ tg' field u found.
        let (v, there, same) = balances_before tg' field u found in
        same
        ∙ h.adds_up tg' field v there
        ∙ ap (λ ts. opening tg' field +ℤ total tg' (name_of field) ts) (sym w.transactions);
  }

  Rewritten-IsMirrored : IsMirrored before → IsMirrored after
  Rewritten-IsMirrored h = record {
    named = λ t a e. h.named t a (rw w.accounts at e);
    apart = λ t t' a a' e e'. h.apart t t' a a' (rw w.accounts at e) (rw w.accounts at e');
    held = λ t f u a x eu ea ex.
        let (v, there, same) = balances_before t f u eu in
        h.held t f v a x there (rw w.accounts at ea) (rw w.wallets at ex) ∙ sym same;
  }

module _ (before after : Db) (w : Untouched before after) where
  Untouched-IsAudited :
      (opening : ℤ → Balance → ℤ) → IsAudited opening before → IsAudited opening after
  Untouched-IsAudited opening h = record {
    adds_up = λ tg field u found.
        h.adds_up tg field u (rw w.users at found)
        ∙ ap (λ ts. opening tg field +ℤ total tg (name_of field) ts) (sym w.transactions);
  }

  Untouched-IsMirrored : IsMirrored before → IsMirrored after
  Untouched-IsMirrored h = record {
    named = λ t a e. h.named t a (rw w.accounts at e);
    apart = λ t t' a a' e e'. h.apart t t' a a' (rw w.accounts at e) (rw w.accounts at e');
    held = λ t f u a x eu ea ex.
        h.held t f u a x (rw w.users at eu) (rw w.accounts at ea) (rw w.wallets at ex);
  }

pub Move-IsAudited :
    (opening : ℤ → Balance → ℤ) (before after : Db)
    → Move before after
    → IsAudited opening before
    → IsAudited opening after
Move-IsAudited opening before after (untouched w) h = Untouched-IsAudited before after w opening h
Move-IsAudited opening before after (rewrites tg w) h =
    Rewritten-IsAudited before after tg w opening h
Move-IsAudited opening before after (posts tg field amount change p) h =
    Posted-IsAudited opening before after tg field amount change p h

pub Move-IsMirrored : (before after : Db) → Move before after → IsMirrored before → IsMirrored after
Move-IsMirrored before after (untouched w) h = Untouched-IsMirrored before after w h
Move-IsMirrored before after (rewrites tg w) h = Rewritten-IsMirrored before after tg w h
Move-IsMirrored before after (posts tg field amount change p) h =
    Posted-IsMirrored before after tg field amount change p h
