-- ===== src/Books/Services.antt =====
-- Calls of the services of points, codes, users and orders in any order, and the books after them.
use sakura_embyboss.Prelude.{
  ℤ, neg, or_zero, String, ◌≡◌, refl, sym, subst, inl, inr, List, [], ◌∷◌,
}
use sakura_embyboss.Exec.{Result, ok, err}
use sakura_embyboss.Database.{Db, ServiceResult, Emby}
use sakura_embyboss.Points.{Balance, iv, us}
use sakura_embyboss.Points.Posted.{balance}
use sakura_embyboss.Points.Calls.{
  Call, CallEffect, run-Effect, user_of, field_of, amount_of, change_of, run as run_points,
}
use sakura_embyboss.Points.Audit.{IsAudited}
use sakura_embyboss.Points.Mirror.{IsMirrored}
use sakura_embyboss.Codes.Redeem.{Redemption, redeem}
use sakura_embyboss.Users.Registration.{Registration, bound, complete_registration}
use sakura_embyboss.Users.Consume.{Settled, call-Settled, consumed}
use sakura_embyboss.Orders.Decide.{credit_of}
use sakura_embyboss.Orders.Effects.{cancels, credits, refunds, add_coins}
use sakura_embyboss.Orders.Calls.{
  OrderCall, run_order, OrderMove, keeps, places, changes, run_order-Move,
}
use sakura_embyboss.Books.{Move, untouched, rewrites, posts, Move-IsAudited, Move-IsMirrored}
use sakura_embyboss.Books.Redeem.{nothing, redeem-Move}

-- A call of one of the services that book what they do: the point service, the redemptions of codes,
-- complete_registration and the calls on orders. `update_user`, which writes balances without a
-- transaction or a wallet, `ensure_user` and the purchase of codes are not among them. A redemption
-- carries the fingerprint function.
pub data ServiceCall : Type 0 where
  points : Call → ServiceCall
  redeems : (String → String) → Redemption → ServiceCall
  registers : Registration → ServiceCall
  orders : OrderCall → ServiceCall

abbrev pub serve : ServiceCall → Db → Db
serve (points c) db = (run_points c db).1
serve (redeems fingerprint c) db = (redeem fingerprint c db).1
serve (registers c) db = (complete_registration c db).1
serve (orders c) db = (run_order c db).1

abbrev pub serve_all : List ServiceCall → Db → Db
serve_all [] db = db
serve_all (c ∷ cs) db = serve_all cs (serve c db)

points-Move :
    (c : Call) (db : Db) (out : Result ServiceResult × Db) → CallEffect c db out → Move db out.1
points-Move c db (err e, s) same = subst (Move db) (sym same) (nothing db)
points-Move c db (ok r, s) (inl (same, no_ok)) = subst (Move db) (sym same) (nothing db)
points-Move c db (ok r, s) (inr (posted, good, fresh, saved)) =
    posts (user_of c) (field_of c) (amount_of c) (change_of c) posted

bound_keeps :
    (c : Registration) (u : Emby) (field : Balance) → balance field (bound c u) ≡ balance field u
bound_keeps c u iv = refl
bound_keeps c u us = refl

registers-Move :
    (c : Registration) (db : Db) (out : Result ServiceResult × Db)
    → Settled c db out
    → Move db out.1
registers-Move c db (err e, s) same = subst (Move db) (sym same) (nothing db)
registers-Move c db (ok r, s) (inl (bad, same)) = subst (Move db) (sym same) (nothing db)
registers-Move c db (ok r, s) (inr (u, (found, free, inl (kept, b)))) = rewrites c.tg (record {
  user = u;
  user' = bound c u;
  found = found;
  same_tg = refl;
  kept = bound_keeps c u;
  users = b.users;
  transactions = b.transactions;
  accounts = b.accounts;
  wallets = b.wallets;
})
registers-Move c db (ok r, s) (inr (u, (found, free, inr (consumes, days, p)))) =
    posts c.tg us (neg (or_zero u.us)) (consumed c) p

orders-Move : (db after : Db) → OrderMove db after → Move db after
orders-Move db after (keeps same) = subst (Move db) (sym same) (nothing db)
orders-Move db after (places p) = untouched p.quiet
orders-Move db after (changes cancels o c) = untouched c.books
orders-Move db after (changes credits o c) =
    posts o.tg iv (credit_of o) (add_coins (credit_of o)) c.books
orders-Move db after (changes refunds o c) =
    posts o.tg iv (neg (credit_of o)) (add_coins (neg (credit_of o))) c.books

serve-Move : (c : ServiceCall) (db : Db) → Move db (serve c db)
serve-Move (points c) db = points-Move c db (run_points c db) (run-Effect c db)
serve-Move (redeems fingerprint c) db = redeem-Move fingerprint c db
serve-Move (registers c) db = registers-Move c db (complete_registration c db) (call-Settled c db)
serve-Move (orders c) db = orders-Move db (run_order c db).1 (run_order-Move c db)

-- After any calls of the services, in any order, every balance of coins and of days is its opening
-- value and the sum of the transactions on record for that user and that balance, if it was so
-- before: no adjustment, check-in, purchase of a level, redemption, registration, approval or refund
-- of an order moves a balance without its transaction.
pub serve_all-IsAudited :
    (opening : ℤ → Balance → ℤ) (cs : List ServiceCall) (db : Db)
    → IsAudited opening db
    → IsAudited opening (serve_all cs db)
serve_all-IsAudited opening [] db h = h
serve_all-IsAudited opening (c ∷ cs) db h =
    serve_all-IsAudited opening cs (serve c db)
      (Move-IsAudited opening db (serve c db) (serve-Move c db) h)

-- After any calls of the point service, redemptions of codes, registrations and calls on orders, in
-- any order, each wallet still holds the balance of the user of its account, if it was so before.
-- Calls of `update_user`, which writes balances without a wallet, are not among them, nor are those of
-- `ensure_user` and the purchases of codes.
pub serve_all-IsMirrored :
    (cs : List ServiceCall) (db : Db) → IsMirrored db → IsMirrored (serve_all cs db)
serve_all-IsMirrored [] db h = h
serve_all-IsMirrored (c ∷ cs) db h =
    serve_all-IsMirrored cs (serve c db) (Move-IsMirrored db (serve c db) (serve-Move c db) h)
