-- ===== src/Store/Effects.antt =====
-- Actions over the tables: state, exceptions, and database transactions.
use farm_backend.Prelude.{
  ℕ, ⊤, Bool, true, false, Option, none, some, [], ◌∷◌, ◌++◌, String, if◌then◌else◌,
}
use farm_backend.Prelude.Int.{ℤ, pos, negate, ◌+ℤ◌, leb_ℤ}
use farm_backend.Prelude.Table
use farm_backend.Prelude.Table.{Table, find, modify, find_first}
use farm_backend.Store.Rows.{Db, User, Wallet, Escrow, Message, Transaction, LedgerEntry}

-- The exception classes that the code tells apart, with the message.
pub data Error : Type 0 where
  bad_request unauthorized forbidden not_found conflict gone unavailable internal : String → Error

pub data Result {ℓ} (A : Type ℓ) : Type ℓ where
  ok : A → Result A
  err : Error → Result A

-- What was written before an exception stays written, unless a transaction rolls it back.
abbrev pub Action : Type 0 → Type 0
Action A = Db → Result A × Db

module _ {A : Type 0} where
  unfoldable pub pure : A → Action A
  pure a db = (ok a, db)

  unfoldable pub raise : Error → Action A
  raise e db = (err e, db)

  unfoldable pub gets : (Db → A) → Action A
  gets f db = (ok (f db), db)

  unfoldable pub or_raise : Error → Option A → Action A
  or_raise e none db = (err e, db)
  or_raise e (some a) db = (ok a, db)

  unfoldable pub commit : Db → Result A × Db → Result A × Db
  commit start (ok a, db) = (ok a, db)
  commit start (err e, _) = (err e, start)

  -- `prisma.$transaction`: all or nothing
  unfoldable pub transaction : Action A → Action A
  unfolding commit
  transaction m db = commit db (m db)

module _ {A : Type 0} where
  unfoldable pub rescued : (Error → Action A) → Result A × Db → Result A × Db
  rescued h (ok a, db) = (ok a, db)
  rescued h (err e, db) = h e db

  -- `try { m } catch (e) { h(e) }`; what `m` wrote outside a transaction stays.
  unfoldable pub rescue : Action A → (Error → Action A) → Action A
  unfolding rescued
  rescue m h db = rescued h (m db)

unfoldable pub raise_if : Bool → Error → Action ⊤
raise_if true e db = (err e, db)
raise_if false e db = (ok tt, db)

module _ {A B : Type 0} where
  unfoldable pub next : (A → Action B) → Result A × Db → Result B × Db
  next f (ok a, db) = f a db
  next f (err e, db) = (err e, db)

  infixl 5 ◌>>=◌ ◌>>◌
  unfoldable pub ◌>>=◌ : Action A → (A → Action B) → Action B
  unfolding next
  ◌>>=◌ m f db = next f (m db)

  unfoldable pub ◌>>◌ : Action A → Action B → Action B
  unfolding ◌>>=◌
  m >> k = m >>= λ _. k

-- Prisma's error P2025 for an `update` that finds no row.
abbrev pub no_record : Error
no_record = internal "Record to update not found."

unfoldable pub write_wallet : ℕ → (Wallet → Wallet) → Option Wallet → Action Wallet
write_wallet k f none db = (err no_record, db)
write_wallet k f (some w) db = (ok (f w), record db { wallets = modify k f db.wallets })

-- `tx.wallets.update` with increments of the balance and of the locked balance
abbrev pub moved : ℤ → ℤ → Wallet → Wallet
moved by lock w = record w { balance = w.balance +ℤ by; locked_balance = w.locked_balance +ℤ lock }

unfoldable pub adjust_wallet : ℕ → ℤ → ℤ → Action Wallet
unfolding write_wallet
adjust_wallet k by lock db = write_wallet k (moved by lock) (find k db.wallets) db

unfoldable pub write_user : ℕ → (User → User) → Option User → Action ⊤
write_user k f none db = (err no_record, db)
write_user k f (some u) db = (ok tt, record db { users = modify k f db.users })

-- `tx.users.update`
unfoldable pub update_user : ℕ → (User → User) → Action ⊤
unfolding write_user
update_user k f db = write_user k f (find k db.users) db

unfoldable pub write_escrow : ℕ → (Escrow → Escrow) → Option Escrow → Action Escrow
write_escrow k f none db = (err no_record, db)
write_escrow k f (some e) db = (ok (f e), record db { escrows = modify k f db.escrows })

-- `tx.escrow_contracts.update`
unfoldable pub update_escrow : ℕ → (Escrow → Escrow) → Action Escrow
unfolding write_escrow
update_escrow k f db = write_escrow k f (find k db.escrows) db

unfoldable pub create_escrow : ℕ → Escrow → Action Escrow
create_escrow k e db = (ok e, record db { escrows = Table.insert k e db.escrows })

unfoldable pub create_transaction : ℕ → Transaction → Action ℕ
create_transaction k t db = (ok k, record db { transactions = Table.insert k t db.transactions })

unfoldable pub create_entry : LedgerEntry → Action ⊤
create_entry e db = (ok tt, record db { ledger = db.ledger ++ e ∷ [] })

unfoldable pub create_message : Message → Action ⊤
create_message m db = (ok tt, record db { messages = db.messages ++ m ∷ [] })

-- `updateMany({ where: { id, … } })`: the row is changed if it is there and passes the test.
unfoldable pub claim_escrow : ℕ → (Escrow → Bool) → (Escrow → Escrow) → Option Escrow → Action Bool
claim_escrow k p f none db = (ok false, db)
claim_escrow k p f (some e) db =
    if p e then (ok true, record db { escrows = modify k f db.escrows }) else (ok false, db)

unfoldable pub update_many_escrow : ℕ → (Escrow → Bool) → (Escrow → Escrow) → Action Bool
unfolding claim_escrow
update_many_escrow k p f db = claim_escrow k p f (find k db.escrows) db

unfoldable pub write_transaction : ℕ → (Transaction → Transaction) → Option Transaction → Action ⊤
write_transaction k f none db = (err no_record, db)
write_transaction k f (some t) db = (ok tt, record db { transactions = modify k f db.transactions })

-- `tx.transactions.update`
unfoldable pub update_transaction : ℕ → (Transaction → Transaction) → Action ⊤
unfolding write_transaction
update_transaction k f db = write_transaction k f (find k db.transactions) db

unfoldable pub debit_row : ℕ → ℕ → Option Wallet → Action Bool
debit_row k amount none db = (ok false, db)
debit_row k amount (some w) db =
    if leb_ℤ (pos amount) w.balance
    then (
      ok true,
      record db { wallets = modify k (moved (negate (pos amount)) (pos 0)) db.wallets },
    )
    else (ok false, db)

-- `updateMany({ where: { id, balance: { gte: amount } }, data: { balance: { decrement } } })`
unfoldable pub debit_wallet : ℕ → ℕ → Action Bool
unfolding debit_row
debit_wallet k amount db = debit_row k amount (find k db.wallets) db
