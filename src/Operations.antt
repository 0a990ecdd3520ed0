-- ===== src/Operations.antt =====
-- repositories/operations.py: the log of operations that every service writes beside its own rows.
-- An insert that breaks a unique constraint of sql_application.py or sql_accounts.py raises.
pub mod Booking
use sakura_embyboss.Prelude.{
  ℕ, ℤ, String, Bool, false, ◌&&◌, Option, none, some, List, ◌∷◌, ◌+◌, ◌==◌, eq_int, eq_string,
  if◌then◌else◌, first, replace, is_some, str_append,
}
use sakura_embyboss.Exec.{Exec, pure, raise, gets, modify, integrity_error, ◌>>=◌, ◌>>◌}
use sakura_embyboss.Database.{
  Db, Fields, Actor, ServiceResult, Account, AccountWallet, AccountLedgerEntry, PointTransaction,
  IdempotencyRecord, by_legacy_tg,
}

abbrev pub is_record : String → String → IdempotencyRecord → Bool
is_record scope key r = r.scope == scope && r.idempotency_key == key

saved_of : Option IdempotencyRecord → Option ServiceResult
saved_of none = none
saved_of (some r) = r.saved

unfoldable pub find_saved : String → Option String → List IdempotencyRecord → Option ServiceResult
unfolding saved_of
find_saved scope none rows = none
find_saved scope (some key) rows =
    if key == "" then none else saved_of (first (is_record scope key) rows)

abbrev pub get_idempotent_result : String → Option String → Exec Db (Option ServiceResult)
get_idempotent_result scope key = gets (λ db. find_saved scope key db.idempotency)

abbrev pub idempotency_record : String → String → ServiceResult → IdempotencyRecord
idempotency_record scope key r = record { scope = scope; idempotency_key = key; saved = some r }

unfoldable pub save_idempotent_result : String → Option String → ServiceResult → Exec Db (Unit {0})
save_idempotent_result scope none r db = pure tt db
save_idempotent_result scope (some key) r db =
    if key == ""
    then (pure tt db)
    else if is_some (first (is_record scope key) db.idempotency)
    then raise integrity_error db
    else modify
        (λ (s : Db). record s { idempotency = idempotency_record scope key r ∷ s.idempotency }) db

unfoldable pub audit :
    Actor → String → String → Option String → String → Option Fields → Exec Db (Unit {0})
audit actor action resource_type resource_id outcome detail = modify λ (s : Db). record s {
  audits =
      record {
        actor = actor;
        action = action;
        resource_type = resource_type;
        resource_id = resource_id;
        outcome = outcome;
        detail = detail;
      }
      ∷ s.audits;
}

unfoldable pub event : String → String → Option String → Fields → Exec Db (Unit {0})
event event_type aggregate_type aggregate_id payload = modify λ (s : Db). record s {
  events =
      record {
        event_type = event_type;
        aggregate_type = aggregate_type;
        aggregate_id = aggregate_id;
        payload = payload;
      }
      ∷ s.events;
}

-- The keyword arguments of `point_transaction`.
pub record Posting : Type 0 where
  pub tg : ℤ
  pub balance_type : String
  pub amount : ℤ
  pub balance_after : ℤ
  pub reason : String
  pub actor : Actor
  pub idempotency_key : Option String
  pub metadata : Option Fields

abbrev pub account_id_of : Option Account → Option String
account_id_of none = none
account_id_of (some a) = some a.id

abbrev pub transaction_of : ℕ → Option Account → Posting → PointTransaction
transaction_of n found p = record {
  id = n;
  account_id = account_id_of found;
  tg = p.tg;
  balance_type = p.balance_type;
  amount = p.amount;
  balance_after = p.balance_after;
  reason = p.reason;
  actor_kind = p.actor.kind;
  actor_id = p.actor.identifier;
  idempotency_key = p.idempotency_key;
  metadata = p.metadata;
}

abbrev pub is_wallet : String → String → AccountWallet → Bool
is_wallet account_id balance_type w = w.account_id == account_id && w.balance_type == balance_type

-- The wallet is created with the balance, or takes it over.
unfoldable pub put_wallet :
    String → String → ℤ → Option AccountWallet → List AccountWallet → List AccountWallet
put_wallet account_id balance_type balance none rows =
    record { account_id = account_id; balance_type = balance_type; balance = balance; revision = 1 }
    ∷ rows
put_wallet account_id balance_type balance (some w) rows =
    replace (is_wallet account_id balance_type)
      (record w { balance = balance; revision = w.revision + 1 }) rows

abbrev pub entry_of : ℕ → String → Posting → AccountLedgerEntry
entry_of n account_id p = record {
  source_transaction_id = some n;
  account_id = account_id;
  legacy_tg = some p.tg;
  balance_type = p.balance_type;
  amount = p.amount;
  balance_after = p.balance_after;
  reason = p.reason;
  scope = str_append "points." p.balance_type;
  idempotency_key = p.idempotency_key;
  actor_kind = p.actor.kind;
  actor_id = p.actor.identifier;
  metadata = p.metadata;
}

abbrev pub key_is : String → Option String → Bool
key_is key none = false
key_is key (some k) = k == key

abbrev pub is_entry : String → String → AccountLedgerEntry → Bool
is_entry scope key e = e.scope == scope && key_is key e.idempotency_key

-- uq_account_ledger_scope_key; null keys never clash.
unfoldable pub clashes : String → Option String → List AccountLedgerEntry → Bool
clashes scope none rows = false
clashes scope (some key) rows = is_some (first (is_entry scope key) rows)

-- The part of `point_transaction` under `if account_id:`.
unfoldable pub mirror : ℕ → Option Account → Posting → Exec Db (Unit {0})
unfolding put_wallet
mirror n none p db = pure tt db
mirror n (some a) p db =
    if a.id == ""
    then pure tt db
    else if clashes (str_append "points." p.balance_type) p.idempotency_key db.ledger
    then raise integrity_error db
    else modify
        (λ (s : Db). record s {
          wallets =
              put_wallet a.id p.balance_type p.balance_after
                (first (is_wallet a.id p.balance_type) s.wallets) s.wallets;
          ledger = entry_of n a.id p ∷ s.ledger;
        })
        db

unfoldable pub point_transaction : Posting → Exec Db (Unit {0})
unfolding mirror
point_transaction p = do
  found ← gets (by_legacy_tg p.tg)
  n ← gets (λ db. db.next_transaction)
  modify (λ (s : Db). record s {
    transactions = transaction_of n found p ∷ s.transactions;
    next_transaction = n + 1;
  })
  mirror n found p
