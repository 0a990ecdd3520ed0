-- ===== src/Orders/Refund.antt =====
-- An order that is credited and then refunded.
use sakura_embyboss.Prelude.{
  List, [], ◌∷◌, ℤ, ◌+ℤ◌, neg, int_laws, String, true, false, first_holds, ◌≡◌, refl, sym, subst,
  ◌∙◌, ap, inl, inr, Option, some, ◌==◌, eq_string, eq_int, some_inj, ==_refl,
}
use text.Mathlib.TextEquality.{eq_iff}
use sakura_embyboss.Exec.{Result, ok, err, ok_inj}
use sakura_embyboss.Database.{Db, DateTime, Fields, Actor, Emby, get_user, RechargeOrder}
use sakura_embyboss.Points.{iv, us}
use sakura_embyboss.Points.Posted.{balance, Posted}
use sakura_embyboss.Points.Audit.{Posted-user}
use sakura_embyboss.Notifications.{Delivery}
use sakura_embyboss.Orders.{is_order, get_order, serialize_order}
use sakura_embyboss.Orders.Decide.{Decision, decide_order, refund_order, credit_of}
use sakura_embyboss.Orders.Effects.{
  Change, credits, refunds, status_answered, Hidden, Changed, Effect, decided, decide_order-Effect,
  add_coins,
}
use sakura_embyboss.Orders.Calls.{refund_order-Effect}
use sakura_embyboss.Orders.Ledger.{found_after}

-- The order after a change, under its id.
order_after :
    (change : Change) (o : RechargeOrder) (before after : Db) (c : Changed change o before after)
    → get_order o.id after ≡ some c.order'
order_after change o before after c =
    found_after change o before after c o.id ∙ rw (==_refl o.id) refl

-- An order whose status does not allow the idle answer was changed.
module _ (change : Change) (id : String) (db : Db) (o : RechargeOrder)
    (there : get_order id db ≡ some o) (shown : ¬ Hidden change id db)
    (open_ : (o.status == status_answered change) ≡ false) where
  must_change :
      (r : Option Fields) (out : Result (Option Fields) × Db)
      → Effect change id db out
      → out.0 ≡ ok r
      → Changed change o db out.1
  must_change r (err e, s) h k = cc
  must_change r (ok r', s) (inl (same, inl (gone, hides))) k = absurd (shown hides)
  must_change r (ok r', s) (inl (same, inr (o', found, status, shows))) k =
      let this : o ≡ o' = some_inj (sym there ∙ found) in
      let status' : o.status ≡ status_answered change =
        ap (λ (x : RechargeOrder). x.status) this ∙ status in
      absurd (clash (sym open_ ∙ (eq_iff o.status (status_answered change)).1 status'))
    where
      clash : false ≡ true → ⊥
      clash h = cc
  must_change r (ok r', s) (inr (o', here, (c, shows))) k =
      let found : get_order id db ≡ some o' = subst (λ k. get_order k db ≡ some o') here c.found in
      let this : o' ≡ o = some_inj (sym found ∙ there) in subst (λ x. Changed change x db s) this c

-- The balances of the user of a posting, before and after it.
Posted-balances :
    (before after : Db) (tg amount : ℤ) (change : Emby → Emby) (u u' : Emby)
    → Posted before after tg iv amount change
    → get_user tg before ≡ some u
    → get_user tg after ≡ some u'
    → (balance iv u' ≡ balance iv u +ℤ amount) × (balance us u' ≡ balance us u)
Posted-balances before after tg amount change u u' p found found' =
    let old : p.user ≡ u = some_inj (sym p.found ∙ found) in
    let new : p.user' ≡ u' =
      some_inj (sym (Posted-user before after tg iv amount change p) ∙ found') in
    (
      ap (balance iv) (sym new) ∙ p.moved ∙ ap (λ v. balance iv v +ℤ amount) old,
      ap (balance us) (sym new) ∙ p.others ∙ ap (balance us) old,
    )

approval :
    (id : String) (d : Decision) (db : Db)
    → d.approve ≡ true
    → Effect credits id db (decide_order id d db)
approval id d db approved =
    let this : decided d ≡ credits = rw approved refl in
    subst (λ c. Effect c id db (decide_order id d db)) this (decide_order-Effect id db d)

back_again : (a b : ℤ) → a +ℤ b +ℤ neg b ≡ a
back_again a b = omega int_laws

-- A refund gives back what the approval of the order gave: when a pending order is approved and
-- then refunded, both accepted, the balance of coins first rises by the coins of the order and is
-- then as it was, and the days of registration are never changed.
pub refund_restores :
    (id reason : String) (d : Decision) (actor : Actor) (now : DateTime) (delivery : Delivery)
    (db : Db) (o : RechargeOrder) (u v w : Emby) (r r' : Option Fields)
    → d.approve ≡ true
    → get_order id db ≡ some o
    → o.status ≡ "pending"
    → (decide_order id d db).0 ≡ ok r
    → (refund_order id reason actor now delivery (decide_order id d db).1).0 ≡ ok r'
    → get_user o.tg db ≡ some u
    → get_user o.tg (decide_order id d db).1 ≡ some v
    → get_user o.tg (refund_order id reason actor now delivery (decide_order id d db).1).1 ≡ some w
    → ((balance iv v ≡ balance iv u +ℤ credit_of o) × (balance us v ≡ balance us u))
      × ((balance iv w ≡ balance iv u) × (balance us w ≡ balance us u))
refund_restores id reason d actor now delivery db o u v w r r' approved there pending accepted
      refunded before between after =
    let paid = (decide_order id d db).1 in
    let effect = approval id d db approved in
    let c : Changed credits o db paid =
      must_change credits id db o there (λ h. cc (h, there)) (rw pending refl) r
        (decide_order id d db) effect accepted in
    let here : o.id ≡ id = (eq_iff o.id id).0 (first_holds (is_order id) db.orders there) in
    let there' : get_order id paid ≡ some c.order' =
      subst (λ k. get_order k paid ≡ some c.order') here (order_after credits o db paid c) in
    let back = (refund_order id reason actor now delivery paid).1 in
    let c' : Changed refunds c.order' paid back =
      must_change refunds id paid c.order' there' (λ h. cc (h, there')) (rw c.becomes refl) r'
        (refund_order id reason actor now delivery paid)
        (refund_order-Effect id paid reason actor now delivery) refunded in
    let gain =
      Posted-balances db paid o.tg (credit_of o) (add_coins (credit_of o)) u v c.books before
        between in
    let loss =
      Posted-balances paid back c.order'.tg (neg (credit_of c.order'))
        (add_coins (neg (credit_of c.order'))) v w c'.books (rw c.same_tg between)
        (rw c.same_tg after) in
    (
      gain,
      (
        loss.0
            ∙ ap (λ n. balance iv v +ℤ neg n) c.same_coins
            ∙ ap (λ n. n +ℤ neg (credit_of o)) gain.0
            ∙ back_again (balance iv u) (credit_of o),
        loss.1 ∙ gain.1,
      ),
    )

decide_credited :
    (id : String) (d : Decision) (db : Db) (o : RechargeOrder)
    → get_order id db ≡ some o
    → o.status ≡ "credited"
    → decide_order id d db ≡ (ok (some (serialize_order o)), db)
unfolding decide_order
decide_credited id d db o there h = rw (there, (eq_iff o.status "credited").1 h) refl

-- Decisions on an order, one after the other.
abbrev pub decide_all : String → List Decision → Db → Db
decide_all id [] db = db
decide_all id (d ∷ ds) db = decide_all id ds (decide_order id d db).1

-- An order is credited once: when an approval has answered with the order, any decisions on the order
-- that follow, approvals or rejections by anyone, change nothing while nothing else is called, and one
-- more has the same answer as the approval. (A refund ends this.)
pub approval_is_final :
    (id : String) (d d' : Decision) (ds : List Decision) (db : Db) (r : Fields)
    → d.approve ≡ true
    → (decide_order id d db).0 ≡ ok (some r)
    → let paid = (decide_order id d db).1 in
      (decide_all id ds paid ≡ paid) × (decide_order id d' paid ≡ (ok (some r), paid))
approval_is_final id d d' ds db r approved accepted = (all ds, one d')
  where
    go :
        (e : Decision) (out : Result (Option Fields) × Db)
        → Effect credits id db out
        → out.0 ≡ ok (some r)
        → decide_order id e out.1 ≡ (ok (some r), out.1)
    go e (err x, s) h k = cc
    go e (ok r', s) (inl (same, inl (gone, hides))) k = cc (ok_inj k, gone)
    go e (ok r', s) (inl (same, inr (o, found, status, shows))) k =
        let answer : serialize_order o ≡ r = some_inj (sym shows ∙ ok_inj k) in
        rw (same, ← answer) (decide_credited id e db o found status)
    go e (ok r', s) (inr (o, here, (c, shows))) k =
        let answer : serialize_order c.order' ≡ r = some_inj (sym shows ∙ ok_inj k) in
        let found : get_order id s ≡ some c.order' =
          subst (λ k. get_order k s ≡ some c.order') here (order_after credits o db s c) in
        rw (← answer) (decide_credited id e s c.order' found c.becomes)

    one :
        (e : Decision)
        → decide_order id e (decide_order id d db).1 ≡ (ok (some r), (decide_order id d db).1)
    one e = go e (decide_order id d db) (approval id d db approved) accepted

    all :
        (es : List Decision) → decide_all id es (decide_order id d db).1 ≡ (decide_order id d db).1
    all [] = refl
    all (e ∷ es) = ap (λ (o : Result (Option Fields) × Db). decide_all id es o.1) (one e) ∙ all es
