-- ===== src/RedEnvelope/Cases.antt =====
-- `grab_red_envelope` of modules/extra/red_envelope.py, case by case.
use sakura_embyboss.Prelude.{
  arith, ap, sym, subst, ◌==◌, eq_int, ℤ, pos, ◌+ℤ◌, leb_ℤ, ltb_ℤ, String, Bool, true, false, ◌||◌,
  ◌≡◌, refl, ◌⊎◌, inl, inr, Option, none, some, Bool-cases, first,
}
use sakura_embyboss.Database.{Emby}
use sakura_embyboss.Points.{max_int_value, min_int_value}
use sakura_embyboss.RedEnvelope.{
  pay_detached, answer_from, answer_private, finish_from, finish_grab, pop_item, RedEnvelope, Group,
  has_id, sql_get_emby, sql_update_emby, Grabbed, gone, unknown_user, greedy, not_yours,
  out_of_range, failed, paid, Press, has_received, amount_of, after_grab, set_item, waiting,
  is_private, pay_read, pay_out, pay, grab_as, grab_from, grab_red_envelope,
}

abbrev pub is_paid : Grabbed → Bool
is_paid (paid a) = true
is_paid gone = false
is_paid unknown_user = false
is_paid greedy = false
is_paid not_yours = false
is_paid out_of_range = false
is_paid failed = false
is_paid (waiting iv a) = false

abbrev pub beyond : ℤ → Bool
beyond v = ltb_ℤ max_int_value v || ltb_ℤ v min_int_value

module _ (matches : String → ℤ → Bool) (p : Press) (g : Group) where
  abbrev pub Refused : Grabbed × Group → Type 0
  Refused out = (is_paid out.0 ≡ false) × (out.1 ≡ g)

  -- The state after the payment of `amount` out of `e` to a user with the balance `iv`.
  abbrev pub after_paying : ℤ → ℤ → RedEnvelope → Group
  after_paying iv amount e =
      let g' = sql_update_emby p.stored p.tg (iv +ℤ amount) g in
      record g' { red_envelopes = set_item (after_grab p amount e) g'.red_envelopes }

  pub record Paying (out : Grabbed × Group) : Type 0 where
    pub envelope : RedEnvelope
    pub user : Emby
    pub iv : ℤ
    pub amount : ℤ
    pub found : first (has_id p.red_id) g.red_envelopes ≡ some envelope
    pub row : sql_get_emby matches p.tg g.users ≡ some user
    pub coins : user.iv ≡ some iv
    pub is_new : has_received p.tg envelope.receivers ≡ false
    pub open_ : leb_ℤ envelope.rest_members (pos 0) ≡ false
    pub common : is_private envelope.envelope_type ≡ false
    pub share : amount_of p envelope ≡ some amount
    pub within : beyond (iv +ℤ amount) ≡ false
    pub result : out ≡ (paid amount, after_paying iv amount envelope)

  abbrev pub Case : Grabbed × Group → Type 0
  Case out = Refused out ⊎ Paying out

  module _ (e : RedEnvelope) (u : Emby) (found : first (has_id p.red_id) g.red_envelopes ≡ some e)
      (row : sql_get_emby matches p.tg g.users ≡ some u)
      (is_new : has_received p.tg e.receivers ≡ false)
      (open_ : leb_ℤ e.rest_members (pos 0) ≡ false) where
    pay-Case :
        (amount iv : Option ℤ) → amount_of p e ≡ amount → u.iv ≡ iv → Case (pay p amount iv e g)
    unfolding pay pay_read pay_out
    pay-Case none iv h k = inl (refl, refl)
    pay-Case (some amount) none h k = elim (Bool-cases (is_private e.envelope_type)) [
      | inl q ↦ rw q (inl (refl, refl))
      | inr q ↦ rw q (inl (refl, refl))
    ]
    pay-Case (some amount) (some iv) h k = elim (Bool-cases (is_private e.envelope_type)) [
      | inl q ↦ rw q (inl (refl, refl))
      | inr q ↦ elim (Bool-cases (beyond (iv +ℤ amount))) [
        | inl f ↦ rw (q, f) (inl (refl, refl))
        | inr f ↦ inr (record {
          envelope = e;
          user = u;
          iv = iv;
          amount = amount;
          found = found;
          row = row;
          coins = k;
          is_new = is_new;
          open_ = open_;
          common = q;
          share = h;
          within = f;
          result = rw (q, f) refl;
        })
      ]
    ]

  as-Case :
      (e : RedEnvelope) (u : Option Emby)
      → first (has_id p.red_id) g.red_envelopes ≡ some e
      → sql_get_emby matches p.tg g.users ≡ u
      → Case (grab_as p u e g)
  unfolding grab_as
  as-Case e none found row = inl (refl, refl)
  as-Case e (some u) found row = elim (Bool-cases (has_received p.tg e.receivers)) [
    | inl h ↦ rw h (inl (refl, refl))
    | inr h ↦ elim (Bool-cases (leb_ℤ e.rest_members (pos 0))) [
      | inl k ↦ rw (h, k) (inl (refl, refl))
      | inr k ↦ rw (h, k) (pay-Case e u found row h k (amount_of p e) u.iv refl refl)
    ]
  ]

  from-Case :
      (e : Option RedEnvelope)
      → first (has_id p.red_id) g.red_envelopes ≡ e
      → Case (grab_from matches p e g)
  unfolding grab_from
  from-Case none found = inl (refl, refl)
  from-Case (some e) found = as-Case e (sql_get_emby matches p.tg g.users) found refl

  -- A press is refused or awaits an answer, and changes nothing, or it pays out of an envelope that is
  -- not private.
  pub grab_red_envelope-Case : Case (grab_red_envelope matches p g)
  unfolding grab_red_envelope
  grab_red_envelope-Case = from-Case (first (has_id p.red_id) g.red_envelopes) refl

-- What the second part of a private press leaves of the envelopes.
abbrev pub Answered : Press → Group → Grabbed × Group → Type 0
Answered p g out =
    (out.1.red_envelopes ≡ g.red_envelopes)
    ⊎ ((e : RedEnvelope) × (a : ℤ) × (first (has_id p.red_id) g.red_envelopes ≡ some e)
        × (is_private e.envelope_type ≡ true)
        × (out.1.red_envelopes ≡ set_item (after_grab p a e) g.red_envelopes))

pub same_envelopes :
    (stored : Bool) (tg iv : ℤ) (g : Group)
    → (sql_update_emby stored tg iv g).red_envelopes ≡ g.red_envelopes
unfolding sql_update_emby
same_envelopes stored tg iv g = ground arith

module _ (p : Press) (g : Group) where
  detached-Answered : (iv : Option ℤ) (amount : ℤ) → Answered p g (pay_detached p iv amount g)
  unfolding pay_detached
  detached-Answered none amount = inl refl
  detached-Answered (some iv) amount = elim (Bool-cases (beyond (iv +ℤ amount))) [
    | inl f ↦ rw f (inl refl)
    | inr f ↦ rw f (inl (same_envelopes p.stored p.tg (iv +ℤ amount) g))
  ]

  read-Answered :
      (iv : Option ℤ) (amount : ℤ) (e : RedEnvelope)
      → first (has_id p.red_id) g.red_envelopes ≡ some e
      → is_private e.envelope_type ≡ true
      → Answered p g (pay_read p iv amount e g)
  unfolding pay_read pay_out
  read-Answered none amount e found q = inl refl
  read-Answered (some iv) amount e found q = elim (Bool-cases (beyond (iv +ℤ amount))) [
    | inl f ↦ rw f (inl refl)
    | inr f ↦ rw f (
        inr (
          e,
          amount,
          found,
          q,
          ap (set_item (after_grab p amount e)) (same_envelopes p.stored p.tg (iv +ℤ amount) g),
        ))
  ]

  from-Answered :
      (iv : Option ℤ) (amount : ℤ) (e : Option RedEnvelope)
      → first (has_id p.red_id) g.red_envelopes ≡ e
      → Answered p g (answer_from p iv amount e g)
  unfolding answer_from
  from-Answered iv amount none found = detached-Answered iv amount
  from-Answered iv amount (some e) found = elim (Bool-cases (is_private e.envelope_type)) [
    | inl q ↦
        let this : answer_from p iv amount (some e) g ≡ pay_read p iv amount e g = rw q refl in
        subst (Answered p g) (sym this) (read-Answered iv amount e found q)
    | inr q ↦
        let this : answer_from p iv amount (some e) g ≡ pay_detached p iv amount g = rw q refl in
        subst (Answered p g) (sym this) (detached-Answered iv amount)
  ]

  pub answer_private-Answered :
      (iv : Option ℤ) (amount : ℤ) → Answered p g (answer_private p iv amount g)
  unfolding answer_private
  answer_private-Answered iv amount =
      from-Answered iv amount (first (has_id p.red_id) g.red_envelopes) refl

-- The end of a grab leaves the dictionary, or takes the id out.
pub finish_grab-Case :
    (id : String) (g : Group)
    → (finish_grab id g ≡ g)
      ⊎ (finish_grab id g ≡ record g { red_envelopes = pop_item id g.red_envelopes })
unfolding finish_grab finish_from
finish_grab-Case id g = go (first (has_id id) g.red_envelopes)
  where
    go :
        (o : Option RedEnvelope)
        → (finish_from id o g ≡ g)
          ⊎ (finish_from id o g ≡ record g { red_envelopes = pop_item id g.red_envelopes })
    go none = inl refl
    go (some e) = elim (Bool-cases (e.rest_members == pos 0)) [
      | inl k ↦ inr (rw k refl)
      | inr k ↦ inl (rw k refl)
    ]
