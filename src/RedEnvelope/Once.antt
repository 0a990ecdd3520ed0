-- ===== src/RedEnvelope/Once.antt =====
-- Who has grabbed from an envelope of modules/extra/red_envelope.py.
use text.Mathlib.TextEquality.{eq_iff}
use sakura_embyboss.Prelude.{
  Option, ◌⊎◌, ℤ, ◌+ℤ◌, ◌-ℤ◌, String, Bool, true, false, ◌≡◌, refl, sym, ap, subst, ◌∙◌, none, some,
  List, [], ◌∷◌, inl, inr, ◌==◌, ==_refl, eq_int, eq_string, arith, All, Bool-cases, first,
  first_holds, some_inj, int_eq_iff,
}
use sakura_embyboss.RedEnvelope.{
  answer_private, finish_grab, Receipt, RedEnvelope, Group, has_id, has_received, pop_item,
  set_item, new_envelope, create_reds, Press, Grabbed, after_grab, grab_red_envelope,
}
use sakura_embyboss.RedEnvelope.Send.{Command, Settings, send_red_envelope}
use sakura_embyboss.RedEnvelope.Cases.{
  same_envelopes, answer_private-Answered, finish_grab-Case, is_paid, Paying,
  grab_red_envelope-Case,
}
use sakura_embyboss.RedEnvelope.Checks.{IsUser, send_red_envelope-Case}
use sakura_embyboss.RedEnvelope.Runs.{answers, finishes, ranks, Event, sends, grabs, step, run}
use sakura_embyboss.RedEnvelope.Rank.{s_rank-Case}

pub first-pop_same :
    (id : String) (es : List RedEnvelope) → first (has_id id) (pop_item id es) ≡ none
unfolding first pop_item
first-pop_same id [] = refl
first-pop_same id (e ∷ es) = ground (arith, first-pop_same id es)

first-pop_other :
    (id id' : String) (es : List RedEnvelope)
    → (id' == id) ≡ false
    → first (has_id id) (pop_item id' es) ≡ first (has_id id) es
unfolding first pop_item
first-pop_other id id' [] h = refl
first-pop_other id id' (e ∷ es) h = elim (Bool-cases (e.id == id')) [
  | inl k ↦
      let not_it : (e.id == id) ≡ false =
        subst (λ i. (i == id) ≡ false) (sym ((eq_iff e.id id').0 k)) h in
      rw (k, not_it) (first-pop_other id id' es h)
  | inr k ↦ rw k (elim (Bool-cases (e.id == id)) [
    | inl l ↦ rw l refl
    | inr l ↦ rw l (first-pop_other id id' es h)
  ])
]

-- The user has received from the envelope of this id, if there is one.
abbrev pub IsTaken : ℤ → String → List RedEnvelope → Type 0
IsTaken tg id es =
    (e : RedEnvelope) → first (has_id id) es ≡ some e → has_received tg e.receivers ≡ true

-- A list without the envelope, or with one from which the user has received.
IsTaken-pop_item : (tg : ℤ) (id : String) (es : List RedEnvelope) → IsTaken tg id (pop_item id es)
IsTaken-pop_item tg id es e h = cc (first-pop_same id es, h)

pub first-set_item :
    (e : RedEnvelope) (es : List RedEnvelope) → first (has_id e.id) (set_item e es) ≡ some e
unfolding set_item first
first-set_item e es = rw (==_refl e.id) refl

first-set_other :
    (e : RedEnvelope) (id : String) (es : List RedEnvelope)
    → (e.id == id) ≡ false
    → first (has_id id) (set_item e es) ≡ first (has_id id) es
unfolding set_item first
first-set_other e id es h = rw h (first-pop_other id e.id es h)

IsTaken-set_item :
    (tg : ℤ) (e : RedEnvelope) (es : List RedEnvelope)
    → has_received tg e.receivers ≡ true
    → IsTaken tg e.id (set_item e es)
IsTaken-set_item tg e es h e' k =
    let this : e ≡ e' = some_inj (sym (first-set_item e es) ∙ k) in
    subst (λ (x : RedEnvelope). has_received tg x.receivers ≡ true) this h

has_received-cons :
    (tg : ℤ) (r : Receipt) (rs : List Receipt)
    → ((r.tg == tg) ≡ true) ⊎ (has_received tg rs ≡ true)
    → has_received tg (r ∷ rs) ≡ true
unfolding has_received
has_received-cons tg r rs h = ground arith

module _ (matches : String → ℤ → Bool) (tg : ℤ) (id : String) where
  abbrev Taken : Group → Type 0
  Taken g = IsTaken tg id g.red_envelopes

  -- Any payment out of an envelope in the dictionary, to the user out of the one of the id, or after
  -- the user has received from that.
  set-Taken :
      (p : Press) (a : ℤ) (e : RedEnvelope) (es : List RedEnvelope)
      → first (has_id p.red_id) es ≡ some e
      → ((p.tg ≡ tg) × (p.red_id ≡ id)) ⊎ IsTaken tg id es
      → IsTaken tg id (set_item (after_grab p a e) es)
  set-Taken p a e es found h = elim (Bool-cases (e.id == id)) [
    | inl k ↦ mine ((eq_iff e.id id).0 k) h
    | inr k ↦ other k h
  ]
    where
      here : e.id ≡ p.red_id
      here = (eq_iff e.id p.red_id).0 (first_holds (has_id p.red_id) es found)

      received :
          e.id ≡ id
          → ((p.tg ≡ tg) × (p.red_id ≡ id)) ⊎ IsTaken tg id es
          → ((p.tg == tg) ≡ true) ⊎ (has_received tg e.receivers ≡ true)
      received k (inl me) = inl ((int_eq_iff p.tg tg).1 me.0)
      received k (inr taken) =
          inr (taken e (subst (λ i. first (has_id i) es ≡ some e) (sym here ∙ k) found))

      mine :
          e.id ≡ id
          → ((p.tg ≡ tg) × (p.red_id ≡ id)) ⊎ IsTaken tg id es
          → IsTaken tg id (set_item (after_grab p a e) es)
      mine k h =
          subst (λ i. IsTaken tg i (set_item (after_grab p a e) es)) k
            (IsTaken-set_item tg (after_grab p a e) es
              (has_received-cons tg _ e.receivers (received k h)))

      other :
          (e.id == id) ≡ false
          → ((p.tg ≡ tg) × (p.red_id ≡ id)) ⊎ IsTaken tg id es
          → IsTaken tg id (set_item (after_grab p a e) es)
      other k (inl me) = let it = (eq_iff e.id id).1 (here ∙ me.1) in cc
      other k (inr taken) = λ x f. taken x (sym (first-set_other (after_grab p a e) id es k) ∙ f)

  pay-Taken :
      (p : Press) (g : Group)
      → Paying matches p g (grab_red_envelope matches p g)
      → ((p.tg ≡ tg) × (p.red_id ≡ id)) ⊎ Taken g
      → Taken (grab_red_envelope matches p g).1
  pay-Taken p g c h =
      let e' = after_grab p c.amount c.envelope in
      let envelopes =
        ap (λ (o : Grabbed × Group). o.1.red_envelopes) c.result
        ∙ ap (set_item e') (same_envelopes p.stored p.tg (c.iv +ℤ c.amount) g) in
      subst (IsTaken tg id) (sym envelopes)
        (set-Taken p c.amount c.envelope g.red_envelopes c.found h)

  answer-Taken :
      (p : Press) (iv : Option ℤ) (amount : ℤ) (g : Group)
      → Taken g
      → Taken (answer_private p iv amount g).1
  answer-Taken p iv amount g h = elim (answer_private-Answered p g iv amount) [
    | inl same ↦ subst (IsTaken tg id) (sym same) h
    | inr (e, a, found, q, set) ↦
        subst (IsTaken tg id) (sym set) (set-Taken p a e g.red_envelopes found (inr h))
  ]

  finish-Taken : (id' : String) (g : Group) → Taken g → Taken (finish_grab id' g)
  finish-Taken id' g h = elim (finish_grab-Case id' g) [
    | inl same ↦ subst Taken (sym same) h
    | inr popped ↦ subst Taken (sym popped) (elim (Bool-cases (id' == id)) [
      | inl k ↦
          subst (λ i. IsTaken tg i (pop_item id' g.red_envelopes)) ((eq_iff id' id).0 k)
            (IsTaken-pop_item tg id' g.red_envelopes)
      | inr k ↦ (λ e f. h e (sym (first-pop_other id id' g.red_envelopes k) ∙ f))
    ])
  ]

  send-Taken :
      (o : Settings) (c : Command) (g : Group)
      → IsUser c.sender
      → (c.red_id == id) ≡ false
      → Taken g
      → Taken (send_red_envelope matches o c g).1
  unfolding create_reds
  send-Taken o c g user apart h = elim (send_red_envelope-Case matches c user g o) [
    | inl same ↦ subst Taken (sym same) h
    | inr p ↦
        let k = p.charged in
        let same : p.before.red_envelopes ≡ g.red_envelopes =
          ap (λ (s : Group). s.red_envelopes) k.result
          ∙ same_envelopes c.stored k.tg (k.iv -ℤ p.new.money) g in
        subst Taken (sym p.result) (λ e f. h e (
          sym (
            first-set_other (new_envelope p.new c.red_id c.red_bag) id p.before.red_envelopes apart
            ∙ ap (first (has_id id)) same)
          ∙ f))
  ]

  -- Envelopes of users under another id, and any presses, answers and ranks.
  abbrev pub IsApart : Event → Type 0
  IsApart (sends o c) = IsUser c.sender × ((c.red_id == id) ≡ false)
  IsApart (grabs p) = Unit
  IsApart (answers p iv amount) = Unit
  IsApart (finishes red_id) = Unit
  IsApart (ranks staff c) = Unit

  step-Taken : (e : Event) (g : Group) → IsApart e → Taken g → Taken (step matches e g)
  step-Taken (sends o c) g a h = send-Taken o c g a.0 a.1 h
  step-Taken (grabs p) g a h = elim (grab_red_envelope-Case matches p g) [
    | inl r ↦ subst Taken (sym r.1) h
    | inr c ↦ pay-Taken p g c (inr h)
  ]
  step-Taken (answers p iv amount) g a h = answer-Taken p iv amount g h
  step-Taken (finishes red_id) g a h = finish-Taken red_id g h
  step-Taken (ranks staff c) g a h = elim (s_rank-Case matches c g staff) [
    | inl same ↦ subst Taken (sym same) h
    | inr f ↦
        subst Taken (sym f.result)
          (subst (IsTaken tg id) (sym (same_envelopes c.stored f.tg (f.iv -ℤ c.srank_cost) g)) h)
  ]

  run-Taken : (es : List Event) (g : Group) → All IsApart es → Taken g → Taken (run matches es g)
  unfolding run
  run-Taken [] g a h = h
  run-Taken (e ∷ es) g a h = run-Taken es (step matches e g) a.1 (step-Taken e g a.0 h)

clash : true ≡ false → ⊥
clash h = cc

-- A user gets from an envelope once, unless it is private: after a press that paid at once, which one
-- at a private envelope does not, and whatever commands of users, presses and their later parts follow,
-- in any order and as long as no new envelope gets the id, another press of the user at the envelope
-- does not pay and changes nothing. (Presses at private envelopes that await their answers together may
-- both be paid.)
pub grabbed_once :
    (matches : String → ℤ → Bool) (p p' : Press) (es : List Event) (g : Group)
    → is_paid (grab_red_envelope matches p g).0 ≡ true
    → p'.tg ≡ p.tg
    → p'.red_id ≡ p.red_id
    → All (IsApart matches p.tg p.red_id) es
    → (is_paid (grab_red_envelope matches p' (run matches es (grab_red_envelope matches p g).1)).0
        ≡ false)
      × (grab_red_envelope matches p' (run matches es (grab_red_envelope matches p g).1)).1
        ≡ run matches es (grab_red_envelope matches p g).1
grabbed_once matches p p' es g paid same_user same_id apart =
    elim (grab_red_envelope-Case matches p' after) [
      | inl r ↦ r
      | inr c ↦
          let found =
            subst (λ i. first (has_id i) after.red_envelopes ≡ some c.envelope) same_id c.found in
          let received = taken c.envelope found in
          let fresh = subst (λ t. has_received t c.envelope.receivers ≡ false) same_user c.is_new in
          absurd (clash (sym received ∙ fresh))
    ]
  where
    after : Group
    after = run matches es (grab_red_envelope matches p g).1

    taken : IsTaken p.tg p.red_id after.red_envelopes
    taken =
        run-Taken matches p.tg p.red_id es (grab_red_envelope matches p g).1 apart
          (elim (grab_red_envelope-Case matches p g) [
            | inl r ↦ absurd (clash (sym paid ∙ r.0))
            | inr c ↦ pay-Taken matches p.tg p.red_id p g c (inl (refl, refl))
          ])
