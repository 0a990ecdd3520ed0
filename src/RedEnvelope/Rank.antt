-- ===== src/RedEnvelope/Rank.antt =====
-- `s_rank` of modules/extra/red_envelope.py: the fee for the list of balances, without the list.
use sakura_embyboss.Prelude.{
  ℤ, ◌-ℤ◌, ltb_ℤ, String, Bool, false, ◌||◌, ◌≡◌, refl, Option, none, some, List, [], ◌∷◌, ◌⊎◌, inl,
  inr, ◌==◌, eq_int, Bool-cases, if◌then◌else◌,
}
use sakura_embyboss.Database.{Emby}
use sakura_embyboss.RedEnvelope.{Group, sql_get_emby, sql_update_emby}
use sakura_embyboss.RedEnvelope.Send.{Sender, from_user, sender_chat}

-- The settings that `judge_admins` of func_helper/utils.py reads.
pub record Staff : Type 0 where
  pub owner : ℤ
  pub admins : List ℤ
  pub group : List ℤ

unfoldable pub contains : ℤ → List ℤ → Bool
contains x [] = false
contains x (y ∷ ys) = y == x || contains x ys

unfoldable pub judge_admins : Staff → ℤ → Bool
unfolding contains
judge_admins s uid = uid == s.owner || contains uid s.admins || contains uid s.group

-- A command, with `_open.srank_cost`.
pub record RankCommand : Type 0 where
  pub sender : Sender
  pub srank_cost : ℤ
  pub stored : Bool

-- What the command comes to: `too_poor` restricts the sender, `failed` is an exception.
pub data Ranked : Type 0 where
  too_poor : Ranked
  failed : Ranked
  ranked : Ranked

unfoldable pub charge_fee : ℤ → RankCommand → Option ℤ → Group → Ranked × Group
unfolding sql_update_emby
charge_fee tg c none g = (failed, g)
charge_fee tg c (some iv) g =
    let charged = sql_update_emby c.stored tg (iv -ℤ c.srank_cost) g in
    if ltb_ℤ iv c.srank_cost then (too_poor, g) else (ranked, charged)

unfoldable pub rank_user : ℤ → RankCommand → Option Emby → Group → Ranked × Group
unfolding charge_fee
rank_user tg c none g = (too_poor, g)
rank_user tg c (some u) g = charge_fee tg c u.iv g

unfoldable pub rank_from :
    (String → ℤ → Bool) → Staff → RankCommand → Sender → Group → Ranked × Group
unfolding rank_user sql_get_emby judge_admins
rank_from matches staff c (from_user tg name) g =
    if judge_admins staff tg
    then (ranked, g)
    else rank_user tg c (sql_get_emby matches tg g.users) g
rank_from matches staff c (sender_chat id own) g = (ranked, g)

-- `s_rank`
unfoldable pub s_rank : (String → ℤ → Bool) → Staff → RankCommand → Group → Ranked × Group
unfolding rank_from
s_rank matches staff c g = rank_from matches staff c c.sender g

module _ (matches : String → ℤ → Bool) (c : RankCommand) (g : Group) where
  -- A user who paid the fee.
  pub record Fee (g' : Group) : Type 0 where
    pub tg : ℤ
    pub user : Emby
    pub iv : ℤ
    pub row : sql_get_emby matches tg g.users ≡ some user
    pub coins : user.iv ≡ some iv
    pub covered : ltb_ℤ iv c.srank_cost ≡ false
    pub result : g' ≡ sql_update_emby c.stored tg (iv -ℤ c.srank_cost) g

  abbrev pub Case : Ranked × Group → Type 0
  Case out = (out.1 ≡ g) ⊎ Fee out.1

  charge_fee-Case :
      (tg : ℤ) (u : Emby) (iv : Option ℤ)
      → sql_get_emby matches tg g.users ≡ some u
      → u.iv ≡ iv
      → Case (charge_fee tg c iv g)
  unfolding charge_fee
  charge_fee-Case tg u none row h = inl refl
  charge_fee-Case tg u (some iv) row h = elim (Bool-cases (ltb_ℤ iv c.srank_cost)) [
    | inl k ↦ rw k (inl refl)
    | inr k ↦ rw k (
        inr
          (record { tg = tg; user = u; iv = iv; row = row; coins = h; covered = k; result = refl }))
  ]

  rank_user-Case :
      (tg : ℤ) (u : Option Emby) → sql_get_emby matches tg g.users ≡ u → Case (rank_user tg c u g)
  unfolding rank_user
  rank_user-Case tg none row = inl refl
  rank_user-Case tg (some u) row = charge_fee-Case tg u u.iv row refl

  rank_from-Case : (staff : Staff) (sender : Sender) → Case (rank_from matches staff c sender g)
  unfolding rank_from
  rank_from-Case staff (from_user tg name) = elim (Bool-cases (judge_admins staff tg)) [
    | inl k ↦ rw k (inl refl)
    | inr k ↦ rw k (rank_user-Case tg (sql_get_emby matches tg g.users) refl)
  ]
  rank_from-Case staff (sender_chat id own) = inl refl

  -- The command changes nothing, or it charges a user the fee.
  pub s_rank-Case : (staff : Staff) → Case (s_rank matches staff c g)
  unfolding s_rank
  s_rank-Case staff = rank_from-Case staff c.sender
