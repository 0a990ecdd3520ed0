-- ===== src/RedEnvelope/Progress.antt =====
-- The presses at an envelope of modules/extra/red_envelope.py that pay.
use text.Mathlib.TextEquality.{eq_iff}
use sakura_embyboss.Prelude.{
  first-replace_self, ℤ, pos, ◌+ℤ◌, ◌≤ℤ◌, leb_ℤ, int_laws, String, Bool, true, false, ◌≡◌, refl, ap,
  subst, ◌∙◌, Option, none, some, inl, inr, ◌==◌, eq_int, eq_string, arith, Bool-cases, first,
  first_holds, if◌then◌else◌,
}
use sakura_embyboss.Database.{Emby}
use sakura_embyboss.Points.{max_int_value, min_int_value}
use sakura_embyboss.RedEnvelope.{
  is_private, pay_read, finish_grab, finish_from, has_tg, sql_update_emby, set_iv, EnvelopeType,
  random, equal, private_, RedEnvelope, Group, has_id, sql_get_emby, Press, Grabbed, paid,
  has_received, amount_by, amount_of, after_grab, pay_out, pay, grab_as, grab_from,
  grab_red_envelope,
}
use sakura_embyboss.RedEnvelope.Draws.{IsUniform, IsSound, amount_bound}
use sakura_embyboss.RedEnvelope.Cases.{beyond, after_paying}
use sakura_embyboss.RedEnvelope.Once.{first-pop_same, first-set_item}

has_amount :
    (t : EnvelopeType) (p : Press) (e : RedEnvelope)
    → is_private t ≡ false
    → (a : ℤ) × (amount_by t p e ≡ some a)
unfolding amount_by
has_amount random p e h = (_, refl)
has_amount equal p e h = (_, refl)
has_amount private_ p e h = cc

in_range : (v : ℤ) → min_int_value ≤ℤ v → v ≤ℤ max_int_value → beyond v ≡ false
in_range v h k = ground arith

raised :
    (iv a rest low high : ℤ)
    → pos 0 ≤ℤ a
    → a ≤ℤ rest
    → low ≤ℤ iv
    → iv +ℤ rest ≤ℤ high
    → (low ≤ℤ iv +ℤ a) × (iv +ℤ a ≤ℤ high)
raised iv a rest low high h k l m = (omega (int_laws, h, l), omega (int_laws, k, m))

-- A press that passes every check pays.
grab_pays :
    (matches : String → ℤ → Bool) (p : Press) (g : Group) (e : RedEnvelope) (u : Emby) (iv a : ℤ)
    → first (has_id p.red_id) g.red_envelopes ≡ some e
    → is_private e.envelope_type ≡ false
    → leb_ℤ e.rest_members (pos 0) ≡ false
    → sql_get_emby matches p.tg g.users ≡ some u
    → u.iv ≡ some iv
    → has_received p.tg e.receivers ≡ false
    → amount_of p e ≡ some a
    → beyond (iv +ℤ a) ≡ false
    → grab_red_envelope matches p g ≡ (paid a, after_paying matches p g iv a e)
unfolding grab_red_envelope grab_from grab_as pay pay_read pay_out
grab_pays matches p g e u iv a found common open_ row coins fresh share within =
    rw (found, row, fresh, open_, share, common, coins, within) refl

-- The dictionary at the id after the end of a grab from the envelope.
abbrev pub left_of : RedEnvelope → Option RedEnvelope
left_of e = if e.rest_members == pos 0 then none else some e

finish_left :
    (id : String) (e : RedEnvelope) (g : Group)
    → first (has_id id) g.red_envelopes ≡ some e
    → first (has_id id) (finish_grab id g).red_envelopes ≡ left_of e
unfolding finish_grab finish_from
finish_left id e g found = elim (Bool-cases (e.rest_members == pos 0)) [
  | inl k ↦ rw (found, k) (first-pop_same id g.red_envelopes)
  | inr k ↦ rw (found, k) found
]

credited :
    (p : Press) (g : Group) (u : Emby) (iv : ℤ)
    → p.stored ≡ true
    → first (has_tg p.tg) g.users ≡ some u
    → first (has_tg p.tg) (sql_update_emby p.stored p.tg iv g).users
      ≡ some (record u { iv = some iv })
unfolding sql_update_emby set_iv
credited p g u iv stored row =
    rw (stored, row)
      (first-replace_self (has_tg p.tg) (record u { iv = some iv }) g.users
        (first_holds (has_tg p.tg) g.users row) row)

-- A user whose row is found, has a balance and has room in it for the rest, and who has not received
-- yet, gets an amount from an envelope that is sound, is not private and has a share left: the amount
-- is from nothing to all of the rest, the user's balance grows by it, and the envelope has the receipt,
-- and the amount and one share less. When the press ends, the envelope is gone if that was the last
-- share, and else stays. The draw is in the range of `random.uniform`, and the database takes the write.
pub eligible_press_pays :
    (matches : String → ℤ → Bool) (p : Press) (g : Group) (e : RedEnvelope) (u : Emby) (iv : ℤ)
    → first (has_id p.red_id) g.red_envelopes ≡ some e
    → is_private e.envelope_type ≡ false
    → IsSound e
    → IsUniform p.draw
    → leb_ℤ e.rest_members (pos 0) ≡ false
    → sql_get_emby matches p.tg g.users ≡ some u
    → first (has_tg p.tg) g.users ≡ some u
    → u.iv ≡ some iv
    → has_received p.tg e.receivers ≡ false
    → min_int_value ≤ℤ iv
    → iv +ℤ e.rest_money ≤ℤ max_int_value
    → p.stored ≡ true
    → let out = grab_red_envelope matches p g in
      (a : ℤ) × (out.0 ≡ paid a)
      × (pos 0 ≤ℤ a)
      × (a ≤ℤ e.rest_money)
      × (first (has_tg p.tg) out.1.users ≡ some (record u { iv = some (iv +ℤ a) }))
      × (first (has_id p.red_id) out.1.red_envelopes ≡ some (after_grab p a e))
      × (first (has_id p.red_id) (finish_grab p.red_id out.1).red_envelopes
          ≡ left_of (after_grab p a e))
unfolding amount_of
eligible_press_pays matches p g e u iv found common w draws open_ row own coins fresh low high
      stored =
    let share = has_amount e.envelope_type p e common in
    let a = share.0 in
    let bound = amount_bound p e a w draws open_ share.1 in
    let range = raised iv a e.rest_money min_int_value max_int_value bound.0 bound.1 low high in
    let result =
      grab_pays matches p g e u iv a found common open_ row coins fresh share.1
        (in_range (iv +ℤ a) range.0 range.1) in
    let here : e.id ≡ p.red_id =
      (eq_iff e.id p.red_id).0 (first_holds (has_id p.red_id) g.red_envelopes found) in
    let left : first (has_id e.id) (after_paying matches p g iv a e).red_envelopes
        ≡ some (after_grab p a e) =
      first-set_item (after_grab p a e) (sql_update_emby p.stored p.tg (iv +ℤ a) g).red_envelopes in
    let there =
      ap (λ (o : Grabbed × Group). first (has_id p.red_id) o.1.red_envelopes) result
      ∙ subst
          (λ i.
            first (has_id i) (after_paying matches p g iv a e).red_envelopes
            ≡ some (after_grab p a e))
          here left in
    (
      a,
      ap (λ (o : Grabbed × Group). o.0) result,
      bound.0,
      bound.1,
      ap (λ (o : Grabbed × Group). first (has_tg p.tg) o.1.users) result
          ∙ credited p g u (iv +ℤ a) stored own,
      there,
      finish_left p.red_id (after_grab p a e) (grab_red_envelope matches p g).1 there,
    )
