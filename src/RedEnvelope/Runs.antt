-- ===== src/RedEnvelope/Runs.antt =====
-- Commands and presses of modules/extra/red_envelope.py, in any order.
use native.Mathlib.Nat.{div-mul-le_self}
use sakura_embyboss.Prelude.{
  Option, some, false, int_laws, ◌-ℤ◌, ◌+ℤ◌, ℕ, ◌≤◌, ℤ, pos, negsuc, leb_ℤ, pos_part, String, Bool,
  true, ◌≡◌, refl, sym, ap, subst, ◌∙◌, List, [], ◌∷◌, inl, inr, eq_int, eq_string, arith, All,
  All-first,
}
use sakura_embyboss.RedEnvelope.{
  is_private, has_received, amount_of, answer_private, finish_grab, Grabbed, EnvelopeType, random,
  equal, private_, RedEnvelope, Group, has_id, pop_item, set_item, NewEnvelope, new_envelope,
  create_reds, Press, after_grab, grab_red_envelope,
}
use sakura_embyboss.RedEnvelope.Send.{Command, Settings, send_red_envelope}
use sakura_embyboss.RedEnvelope.Checks.{IsUser, send_red_envelope-Case}
use sakura_embyboss.RedEnvelope.Draws.{IsUniform, IsSound, Suffices, after_grab-IsSound, paid_out}
use sakura_embyboss.RedEnvelope.Cases.{
  same_envelopes, answer_private-Answered, finish_grab-Case, grab_red_envelope-Case,
}
use sakura_embyboss.RedEnvelope.Rank.{Staff, RankCommand, s_rank, s_rank-Case}

abbrev pub AllSound : Group → Type 0
AllSound g = All IsSound g.red_envelopes

All-pop_item :
    (P : RedEnvelope → Type 0) (id : String) (es : List RedEnvelope)
    → All P es
    → All P (pop_item id es)
unfolding pop_item
All-pop_item P id [] h = tt
All-pop_item P id (e ∷ es) h = ground (arith, All-pop_item P id es h.1)

All-set_item :
    (P : RedEnvelope → Type 0) (e : RedEnvelope) (es : List RedEnvelope)
    → P e
    → All P es
    → All P (set_item e es)
unfolding set_item
All-set_item P e es w h = (w, All-pop_item P e.id es h)

start :
    (t : EnvelopeType) (total : ℕ) (members : ℤ)
    → leb_ℤ members (pos total) ≡ true
    → (t ≡ private_ → pos_part members ≤ 1)
    → Suffices t total (pos_part members) total (pos_part members)
start random total members h k = ground arith
start equal total members h k = div-mul-le_self total (pos_part members)
start private_ total members h k = k refl

at_least_five : (a : ℤ) → leb_ℤ (pos 5) a ≡ true → (n : ℕ) × (a ≡ pos n)
at_least_five (pos n) h = (n, refl)
at_least_five (negsuc n) h = ground arith

nothing_paid : (a : ℤ) → pos 0 +ℤ a ≡ a
nothing_paid a = omega int_laws

-- A new envelope of at least five coins and as many as its shares, one share if it is private, is
-- sound.
new_envelope-IsSound :
    (a : NewEnvelope) (red_id red_bag : String)
    → leb_ℤ (pos 5) a.money ≡ true
    → leb_ℤ a.members a.money ≡ true
    → ((new_envelope a red_id red_bag).envelope_type ≡ private_ → pos_part a.members ≤ 1)
    → IsSound (new_envelope a red_id red_bag)
unfolding paid_out
new_envelope-IsSound a red_id red_bag h k t =
    let money = at_least_five a.money h in
    record {
      total = money.0;
      rest = money.0;
      total_is = money.1;
      rest_is = money.1;
      books = nothing_paid a.money;
      counts = nothing_paid a.members;
      once = tt;
      gains = tt;
      enough =
          start (new_envelope a red_id red_bag).envelope_type money.0 a.members
            (subst (λ m. leb_ℤ a.members m ≡ true) money.1 k) t;
    }

-- A step of a handler: a command, a press up to its await, and what follows the awaits.
pub data Event : Type 0 where
  sends : Settings → Command → Event
  grabs : Press → Event
  answers : Press → Option ℤ → ℤ → Event
  finishes : String → Event
  ranks : Staff → RankCommand → Event

abbrev pub step : (String → ℤ → Bool) → Event → Group → Group
step matches (sends o c) g = (send_red_envelope matches o c g).1
step matches (grabs p) g = (grab_red_envelope matches p g).1
step matches (answers p iv amount) g = (answer_private p iv amount g).1
step matches (finishes red_id) g = finish_grab red_id g
step matches (ranks staff c) g = (s_rank matches staff c g).1

unfoldable pub run : (String → ℤ → Bool) → List Event → Group → Group
run matches [] g = g
run matches (e ∷ es) g = run matches es (step matches e g)

-- Envelopes come from users, and draws are uniform.
abbrev pub IsFair : Event → Type 0
IsFair (sends o c) = IsUser c.sender
IsFair (grabs p) = IsUniform p.draw
IsFair (answers p iv amount) = Unit
IsFair (finishes red_id) = Unit
IsFair (ranks staff c) = Unit

-- A property of envelopes that new ones have and that grabs and answers keep.
pub record IsKept (P : RedEnvelope → Type 0) : Type 0 where
  pub new : (e : RedEnvelope) → IsSound e → P e
  pub grab :
      (p : Press) (e : RedEnvelope) (a : ℤ)
      → P e
      → is_private e.envelope_type ≡ false
      → IsUniform p.draw
      → has_received p.tg e.receivers ≡ false
      → leb_ℤ e.rest_members (pos 0) ≡ false
      → amount_of p e ≡ some a
      → P (after_grab p a e)

module _ (P : RedEnvelope → Type 0) (kept : IsKept P) (matches : String → ℤ → Bool) (g : Group)
    (h : All P g.red_envelopes) where
  abbrev AllP : Group → Type 0
  AllP s = All P s.red_envelopes

  pub grab-All : (p : Press) → IsUniform p.draw → AllP (grab_red_envelope matches p g).1
  grab-All p u = elim (grab_red_envelope-Case matches p g) [
    | inl r ↦ subst AllP (sym r.1) h
    | inr c ↦
        let w = All-first P (has_id p.red_id) g.red_envelopes h c.found in
        let w' = kept.grab p c.envelope c.amount w c.common u c.is_new c.open_ c.share in
        let same = same_envelopes p.stored p.tg (c.iv +ℤ c.amount) g in
        subst (λ (o : Grabbed × Group). AllP o.1) (sym c.result)
          (subst (λ es. All P (set_item (after_grab p c.amount c.envelope) es)) (sym same)
            (All-set_item P (after_grab p c.amount c.envelope) g.red_envelopes w' h))
  ]

  pub send-All :
      (o : Settings) (c : Command) → IsUser c.sender → AllP (send_red_envelope matches o c g).1
  unfolding create_reds
  send-All o c user = elim (send_red_envelope-Case matches c user g o) [
    | inl same ↦ subst AllP (sym same) h
    | inr p ↦
        let same : p.before.red_envelopes ≡ g.red_envelopes =
          ap (λ (s : Group). s.red_envelopes) p.charged.result
          ∙ same_envelopes c.stored p.charged.tg (p.charged.iv -ℤ p.new.money) g in
        let e = new_envelope p.new c.red_id c.red_bag in
        let sound = new_envelope-IsSound p.new c.red_id c.red_bag p.charged.five p.each p.single in
        subst AllP (sym p.result) (
          subst (λ es. All P (set_item e es)) (sym same)
            (All-set_item P e g.red_envelopes (kept.new e sound) h))
  ]

  pub finish-All : (id : String) → AllP (finish_grab id g)
  finish-All id = elim (finish_grab-Case id g) [
    | inl same ↦ subst AllP (sym same) h
    | inr popped ↦ subst AllP (sym popped) (All-pop_item P id g.red_envelopes h)
  ]

  pub rank-All : (staff : Staff) (c : RankCommand) → AllP (s_rank matches staff c g).1
  rank-All staff c = elim (s_rank-Case matches c g staff) [
    | inl same ↦ subst AllP (sym same) h
    | inr f ↦
        subst AllP (sym f.result)
          (subst (All P) (sym (same_envelopes c.stored f.tg (f.iv -ℤ c.srank_cost) g)) h)
  ]

IsSound-IsKept : IsKept IsSound
IsSound-IsKept = record {
  new = λ e w. w;
  grab = λ p e a w q u fresh open_ share. after_grab-IsSound p e a w u fresh open_ share;
}

-- No private press is answered.
abbrev pub IsCommon : Event → Type 0
IsCommon (answers p iv amount) = ⊥
IsCommon (sends o c) = Unit
IsCommon (grabs p) = Unit
IsCommon (finishes red_id) = Unit
IsCommon (ranks staff c) = Unit

pub step-AllSound :
    (matches : String → ℤ → Bool) (e : Event) (g : Group)
    → IsFair e
    → IsCommon e
    → AllSound g
    → AllSound (step matches e g)
step-AllSound matches (sends o c) g f q h = send-All IsSound IsSound-IsKept matches g h o c f
step-AllSound matches (grabs p) g f q h = grab-All IsSound IsSound-IsKept matches g h p f
step-AllSound matches (answers p iv amount) g f q h = absurd q
step-AllSound matches (finishes id) g f q h = finish-All IsSound IsSound-IsKept matches g h id
step-AllSound matches (ranks staff c) g f q h = rank-All IsSound IsSound-IsKept matches g h staff c

-- Sound, unless it is private.
abbrev pub CommonSound : RedEnvelope → Type 0
CommonSound e = is_private e.envelope_type ≡ false → IsSound e

CommonSound-IsKept : IsKept CommonSound
CommonSound-IsKept = record {
  new = λ e w q. w;
  grab = λ p e a w q u fresh open_ share q'. after_grab-IsSound p e a (w q) u fresh open_ share;
}

answer-CommonSound :
    (p : Press) (iv : Option ℤ) (amount : ℤ) (g : Group)
    → All CommonSound g.red_envelopes
    → All CommonSound (answer_private p iv amount g).1.red_envelopes
answer-CommonSound p iv amount g h = elim (answer_private-Answered p g iv amount) [
  | inl same ↦ subst (All CommonSound) (sym same) h
  | inr (e, a, found, q, set) ↦ subst (All CommonSound) (sym set) (
      All-set_item CommonSound (after_grab p a e) g.red_envelopes
        (λ q'. absurd (clash (sym q ∙ q'))) h)
]
  where
    clash : true ≡ false → ⊥
    clash h = cc

step-CommonSound :
    (matches : String → ℤ → Bool) (e : Event) (g : Group)
    → IsFair e
    → All CommonSound g.red_envelopes
    → All CommonSound (step matches e g).red_envelopes
step-CommonSound matches (sends o c) g f h =
    send-All CommonSound CommonSound-IsKept matches g h o c f
step-CommonSound matches (grabs p) g f h = grab-All CommonSound CommonSound-IsKept matches g h p f
step-CommonSound matches (answers p iv amount) g f h = answer-CommonSound p iv amount g h
step-CommonSound matches (finishes id) g f h =
    finish-All CommonSound CommonSound-IsKept matches g h id
step-CommonSound matches (ranks staff c) g f h =
    rank-All CommonSound CommonSound-IsKept matches g h staff c

-- Commands, with which users send envelopes or ask for the ranks, and presses, whose parts between two
-- awaits come in any order, also those of private envelopes, and whether the database takes the
-- balances or not: of every envelope in the dictionary that is not private, the amounts received and
-- the rest are its money, the receivers and the shares left are its members, nobody has received
-- twice, no amount is negative, and the rest is not: for equal shares it pays all that are left, and
-- drawn ones leave it at most one coin short of a coin for each. The draws are in the range that
-- `random.uniform` documents, and an id is not used again before its presses end. Of private envelopes
-- nothing is said: two presses that await their answers together may both be paid.
pub run-AllSound :
    (matches : String → ℤ → Bool) (es : List Event) (g : Group)
    → All IsFair es
    → All CommonSound g.red_envelopes
    → All CommonSound (run matches es g).red_envelopes
unfolding run
run-AllSound matches [] g f h = h
run-AllSound matches (e ∷ es) g f h =
    run-AllSound matches es (step matches e g) f.1 (step-CommonSound matches e g f.0 h)
