-- ===== src/Operations/Booking.antt =====
-- `point_transaction` and `save_idempotent_result`: their two outcomes, and the tables after them.
use sakura_embyboss.Prelude.{
  ℕ, ℤ, String, ◌≡◌, refl, ◌⊎◌, inl, inr, ◌+◌, Option, none, some, List, ◌∷◌, ◌==◌, eq_int,
  eq_string, if◌then◌else◌, first, Bool-cases, str_append, is_some,
}
use sakura_embyboss.Exec.{Result, ok, err, integrity_error}
use sakura_embyboss.Database.{
  Db, ServiceResult, Account, AccountWallet, AccountLedgerEntry, by_legacy_tg, IdempotencyRecord,
}
use sakura_embyboss.Operations.{
  Posting, transaction_of, put_wallet, is_wallet, mirror, point_transaction, entry_of, clashes,
  save_idempotent_result, is_record, idempotency_record,
}

-- The wallets after a posting: the account, if there is one, holds the new balance.
abbrev pub mirrored : Option Account → String → ℤ → List AccountWallet → List AccountWallet
mirrored none name v rows = rows
mirrored (some a) name v rows =
    if a.id == "" then rows else put_wallet a.id name v (first (is_wallet a.id name) rows) rows

abbrev pub entered :
    ℕ → Option Account → Posting → List AccountLedgerEntry → List AccountLedgerEntry
entered n none p rows = rows
entered n (some a) p rows = if a.id == "" then rows else entry_of n a.id p ∷ rows

-- The database after `point_transaction`, if the ledger takes the entry.
abbrev pub booked : Posting → Db → Db
booked p db = record db {
  transactions = transaction_of db.next_transaction (by_legacy_tg p.tg db) p ∷ db.transactions;
  next_transaction = db.next_transaction + 1;
  wallets = mirrored (by_legacy_tg p.tg db) p.balance_type p.balance_after db.wallets;
  ledger = entered db.next_transaction (by_legacy_tg p.tg db) p db.ledger;
}

abbrev pub Raises : {A : Type 0} → Result A × Db → Type 0
Raises out = (s : Db) × (out ≡ (err integrity_error, s))

pub mirror_cases :
    (n : ℕ) (found : Option Account) (p : Posting) (db : Db)
    → Raises (mirror n found p db)
      ⊎ (mirror n found p db ≡ (
        ok tt,
        record db {
          wallets = mirrored found p.balance_type p.balance_after db.wallets;
          ledger = entered n found p db.ledger;
        },
      ))
unfolding mirror
mirror_cases n none p db = inr refl
mirror_cases n (some a) p db = elim (Bool-cases (a.id == "")) [
  | inl e ↦ inr (rw e)
  | inr e ↦
      elim (Bool-cases
        (clashes (str_append "points." p.balance_type) p.idempotency_key db.ledger)) [
          | inl c ↦ inl (db, rw (e, c))
          | inr c ↦ inr (rw (e, c))
        ]
]

-- `point_transaction` raises for a repeated key of the ledger, and books the posting otherwise.
pub point_transaction_cases :
    (p : Posting) (db : Db)
    → Raises (point_transaction p db) ⊎ (point_transaction p db ≡ (ok tt, booked p db))
unfolding point_transaction
point_transaction_cases p db =
    mirror_cases db.next_transaction (by_legacy_tg p.tg db) p (record db {
      transactions = transaction_of db.next_transaction (by_legacy_tg p.tg db) p ∷ db.transactions;
      next_transaction = db.next_transaction + 1;
    })

abbrev pub kept_record :
    String → Option String → ServiceResult → List IdempotencyRecord → List IdempotencyRecord
kept_record scope none r rows = rows
kept_record scope (some key) r rows =
    if key == "" then rows else idempotency_record scope key r ∷ rows

pub save_cases :
    (scope : String) (key : Option String) (r : ServiceResult) (db : Db)
    → Raises (save_idempotent_result scope key r db)
      ⊎ (save_idempotent_result scope key r db
          ≡ (ok tt, record db { idempotency = kept_record scope key r db.idempotency }))
unfolding save_idempotent_result
save_cases scope none r db = inr refl
save_cases scope (some key) r db = elim (Bool-cases (key == "")) [
  | inl e ↦ inr (rw e)
  | inr e ↦ elim (Bool-cases (is_some (first (is_record scope key) db.idempotency))) [
    | inl c ↦ inl (db, rw (e, c))
    | inr c ↦ inr (rw (e, c))
  ]
]
