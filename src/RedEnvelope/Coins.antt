-- ===== src/RedEnvelope/Coins.antt =====
-- What red envelopes (modules/extra/red_envelope.py) do to all coins: those of the users and those in
-- open envelopes.
use text.Mathlib.TextEquality.{eq_iff}
use sakura_embyboss.Prelude.{
  ℤ, pos, ◌+ℤ◌, ◌-ℤ◌, ◌≤ℤ◌, int_laws, String, Bool, true, false, ◌≡◌, sym, subst, some, List, [],
  ◌∷◌, inl, inr, eq_int, eq_string, arith, All, All-first, first, first_holds, or_zero,
}
use sakura_embyboss.Database.{Emby}
use sakura_embyboss.RedEnvelope.{
  finish_grab, Group, has_id, has_tg, pop_item, set_item, set_item, create_reds, sql_update_emby,
  Press, Grabbed, after_grab, grab_red_envelope,
}
use sakura_embyboss.RedEnvelope.Send.{Command, Settings, send_red_envelope}
use sakura_embyboss.RedEnvelope.Draws.{IsUniform, IsSound, after_grab-IsSound}
use sakura_embyboss.RedEnvelope.Cases.{same_envelopes, finish_grab-Case, grab_red_envelope-Case}
use sakura_embyboss.RedEnvelope.Checks.{IsUser, send_red_envelope-Case}
use sakura_embyboss.RedEnvelope.Runs.{
  answers, finishes, IsCommon, ranks, AllSound, Event, sends, grabs, step, run, IsFair,
  step-AllSound,
}
use sakura_embyboss.RedEnvelope.Rank.{Staff, RankCommand, s_rank, s_rank-Case}
use sakura_embyboss.RedEnvelope.Sums.{
  own_row, coins-update, own-update, in_envelopes-pop_item, in_envelopes-set_item, cancel_loss,
  coins-paid, total_bound, placed_bound, coins, in_envelopes, all_coins, AreOwn,
}

-- What every step keeps: the coins do not grow, the names stay the users' own.
abbrev Keeps : (String → ℤ → Bool) → Group → Group → Type 0
Keeps matches g g' = (all_coins g' ≤ℤ all_coins g) × AreOwn matches g'

module _ (matches : String → ℤ → Bool) (g : Group) (own : AreOwn matches g) (h : AllSound g) where
  grab-Keeps : (p : Press) → IsUniform p.draw → Keeps matches g (grab_red_envelope matches p g).1
  grab-Keeps p u = elim (grab_red_envelope-Case matches p g) [
    | inl r ↦ subst (Keeps matches g) (sym r.1) (omega arith, own)
    | inr c ↦
        let w = All-first IsSound (has_id p.red_id) g.red_envelopes h c.found in
        let w' = after_grab-IsSound p c.envelope c.amount w u c.is_new c.open_ c.share in
        let found = own_row matches p.tg g.users c.user own c.row in
        let here : p.red_id ≡ c.envelope.id = sym (
          (eq_iff c.envelope.id p.red_id).0
            (first_holds (has_id p.red_id) g.red_envelopes c.found)) in
        let there = subst (λ i. first (has_id i) g.red_envelopes ≡ some c.envelope) here c.found in
        let gain : pos 0 ≤ℤ c.amount = w'.gains.0 in
        let users = coins-paid p.stored p.tg c.iv c.amount g c.user found c.coins gain in
        let rest = in_envelopes-set_item p c.amount c.envelope g.red_envelopes h there in
        let same = same_envelopes p.stored p.tg (c.iv +ℤ c.amount) g in
        subst (λ (o : Grabbed × Group). Keeps matches g o.1) (sym c.result)
          (subst
            (λ es. Keeps matches g (record (sql_update_emby p.stored p.tg (c.iv +ℤ c.amount) g) {
              red_envelopes = set_item (after_grab p c.amount c.envelope) es;
            }))
            (sym same)
            (
              total_bound (coins (sql_update_emby p.stored p.tg (c.iv +ℤ c.amount) g).users)
                  (coins g.users) c.amount
                  (in_envelopes (set_item (after_grab p c.amount c.envelope) g.red_envelopes))
                  (in_envelopes g.red_envelopes) users rest,
              own-update p.tg (c.iv +ℤ c.amount) g c.user found matches p.stored own,
            ))
  ]

  send-Keeps :
      (o : Settings) (c : Command)
      → IsUser c.sender
      → c.stored ≡ true
      → Keeps matches g (send_red_envelope matches o c g).1
  unfolding create_reds set_item in_envelopes
  send-Keeps o c user stored = elim (send_red_envelope-Case matches c user g o) [
    | inl same ↦ subst (Keeps matches g) (sym same) (omega arith, own)
    | inr p ↦
        let k = p.charged in
        let found = own_row matches k.tg g.users k.user own k.row in
        let left = k.iv -ℤ p.new.money in
        let before : p.before ≡ sql_update_emby true k.tg left g =
          subst (λ s. p.before ≡ sql_update_emby s k.tg left g) stored k.result in
        let moved = coins-update k.tg left g k.user found in
        let exact : coins (sql_update_emby true k.tg left g).users +ℤ p.new.money ≡ coins g.users =
          cancel_loss (coins (sql_update_emby true k.tg left g).users) (coins g.users) k.iv
            p.new.money
            (subst
              (λ v.
                coins (sql_update_emby true k.tg left g).users +ℤ or_zero v ≡ coins g.users +ℤ left)
              k.coins moved) in
        let users = (sql_update_emby true k.tg left g).users in
        let popped = in_envelopes-pop_item c.red_id g.red_envelopes h in
        subst (Keeps matches g) (sym p.result) (
          subst (λ s. Keeps matches g (create_reds p.new c.red_id c.red_bag s)) (sym before)
            (
              subst
                  (λ es.
                    coins users +ℤ (p.new.money +ℤ in_envelopes (pop_item c.red_id es))
                    ≤ℤ all_coins g)
                  (sym (same_envelopes true k.tg left g))
                  (placed_bound (coins users) (coins g.users) p.new.money
                    (in_envelopes (pop_item c.red_id g.red_envelopes))
                    (in_envelopes g.red_envelopes) exact popped),
              own-update k.tg left g k.user found matches true own,
            ))
  ]

finish-Keeps :
    (matches : String → ℤ → Bool) (g : Group) (id : String)
    → AreOwn matches g
    → AllSound g
    → Keeps matches g (finish_grab id g)
finish-Keeps matches g id own h = elim (finish_grab-Case id g) [
  | inl same ↦ subst (Keeps matches g) (sym same) (omega arith, own)
  | inr popped ↦
      let less = in_envelopes-pop_item id g.red_envelopes h in
      subst (Keeps matches g) (sym popped) (omega (int_laws, less), own)
]

-- A charge of at least nothing leaves the users at most what they had.
coins-charged :
    (stored : Bool) (tg v m : ℤ) (g : Group) (u : Emby)
    → first (has_tg tg) g.users ≡ some u
    → u.iv ≡ some v
    → pos 0 ≤ℤ m
    → coins (sql_update_emby stored tg (v -ℤ m) g).users ≤ℤ coins g.users
unfolding sql_update_emby
coins-charged true tg v m g u found has cost =
    let after = coins (sql_update_emby true tg (v -ℤ m) g).users in
    let exact = cancel_loss after (coins g.users) v m (
      subst (λ o. after +ℤ or_zero o ≡ coins g.users +ℤ (v -ℤ m)) has
        (coins-update tg (v -ℤ m) g u found)) in
    subst (λ c. after ≤ℤ c) exact (omega (int_laws, cost))
coins-charged false tg v m g u found has cost = omega arith

add_right : (c' c i : ℤ) → c' ≤ℤ c → c' +ℤ i ≤ℤ c +ℤ i
add_right c' c i h = omega (int_laws, h)

rank-Keeps :
    (matches : String → ℤ → Bool) (g : Group) (staff : Staff) (c : RankCommand)
    → AreOwn matches g
    → pos 0 ≤ℤ c.srank_cost
    → Keeps matches g (s_rank matches staff c g).1
rank-Keeps matches g staff c own cost = elim (s_rank-Case matches c g staff) [
  | inl same ↦ subst (Keeps matches g) (sym same) (omega arith, own)
  | inr f ↦
      let found = own_row matches f.tg g.users f.user own f.row in
      let left = f.iv -ℤ c.srank_cost in
      let charged = coins-charged c.stored f.tg f.iv c.srank_cost g f.user found f.coins cost in
      let users = (sql_update_emby c.stored f.tg left g).users in
      subst (Keeps matches g) (sym f.result) (
        subst (λ es. coins users +ℤ in_envelopes es ≤ℤ all_coins g)
            (sym (same_envelopes c.stored f.tg left g))
            (add_right (coins users) (coins g.users) (in_envelopes g.red_envelopes) charged),
        own-update f.tg left g f.user found matches c.stored own,
      )
]

-- Envelopes come from users, whose charges the database takes, the fee is not negative, and no private
-- press is answered.
abbrev pub IsCharged : Event → Type 0
IsCharged (sends o c) = IsFair (sends o c) × (c.stored ≡ true)
IsCharged (grabs p) = IsFair (grabs p)
IsCharged (answers p iv amount) = ⊥
IsCharged (finishes id) = Unit
IsCharged (ranks staff c) = pos 0 ≤ℤ c.srank_cost

fair : (e : Event) → IsCharged e → IsFair e × IsCommon e
fair (sends o c) h = (h.0, tt)
fair (grabs p) h = (h, tt)
fair (answers p iv amount) h = absurd h
fair (finishes id) h = (tt, tt)
fair (ranks staff c) h = (tt, tt)

step-Keeps :
    (matches : String → ℤ → Bool) (e : Event) (g : Group)
    → IsCharged e
    → AreOwn matches g
    → AllSound g
    → Keeps matches g (step matches e g)
step-Keeps matches (sends o c) g f own h = send-Keeps matches g own h o c f.0 f.1
step-Keeps matches (grabs p) g f own h = grab-Keeps matches g own h p f
step-Keeps matches (answers p iv amount) g f own h = absurd f
step-Keeps matches (finishes id) g f own h = finish-Keeps matches g id own h
step-Keeps matches (ranks staff c) g f own h = rank-Keeps matches g staff c own f

≤ℤ_trans : (a b c : ℤ) → a ≤ℤ b → b ≤ℤ c → a ≤ℤ c
≤ℤ_trans a b c h k = omega (arith, h, k)

-- Envelopes that are not private make no coins: in a run of commands, with which users send envelopes
-- or ask for the ranks, and of presses, none of them answered at a private envelope, the coins of the
-- users and those left in the envelopes are together at most what they were, whatever the order of the
-- parts between two awaits. The database takes the charges for the envelopes, the fee for the ranks is
-- not negative, the envelopes are sound at the start, the names and Emby ids that the database takes
-- for the number of a user are that user's, and the draws are in the range of `random.uniform`. (The
-- payment of a private envelope writes a balance read before its await, and may make coins.)
pub run-makes_no_coins :
    (matches : String → ℤ → Bool) (es : List Event) (g : Group)
    → All IsCharged es
    → AreOwn matches g
    → AllSound g
    → all_coins (run matches es g) ≤ℤ all_coins g
unfolding run
run-makes_no_coins matches [] g f own h = omega arith
run-makes_no_coins matches (e ∷ es) g f own h =
    let g' = step matches e g in
    let kept = step-Keeps matches e g f.0 own h in
    let (is_fair, is_common) = fair e f.0 in
    let rest =
      run-makes_no_coins matches es g' f.1 kept.1 (step-AllSound matches e g is_fair is_common h) in
    ≤ℤ_trans (all_coins (run matches es g')) (all_coins g') (all_coins g) rest kept.0
