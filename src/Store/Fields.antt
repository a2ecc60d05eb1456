-- ===== src/Store/Fields.antt =====
-- Actions on a table of its own, by the field of the database that holds it. The wallets and the
-- escrows are no such tables.
use farm_backend.Prelude.{
  ℕ, ⊤, ◌≡◌, Bool, true, false, Option, none, some, List, [], ◌∷◌, if◌then◌else◌,
}
use farm_backend.Prelude.Table
use farm_backend.Prelude.Table.{Table, find, modify}
use farm_backend.Store.Rows.{Db, Wallet, User, Transaction, LedgerEntry}
use farm_backend.Store.Effects.{ok, err, Action, no_record}

pub record Field (V : Type 0) : Type 0 where
  pub get : Db → Table V
  pub put : Table V → Db → Db
  pub got : (t : Table V) (db : Db) → get (put t db) ≡ t
  pub same_wallets : (t : Table V) (db : Db) → (put t db).wallets ≡ db.wallets
  pub same_escrows : (t : Table V) (db : Db) → (put t db).escrows ≡ db.escrows
  pub past_wallets : (ws : Table Wallet) (db : Db) → get (record db { wallets = ws }) ≡ get db
  pub past_users : (us : Table User) (db : Db) → get (record db { users = us }) ≡ get db
  pub past_transactions :
      (ts : Table Transaction) (db : Db) → get (record db { transactions = ts }) ≡ get db
  pub past_ledger : (es : List LedgerEntry) (db : Db) → get (record db { ledger = es }) ≡ get db

module _ {V : Type 0} (fd : Field V) where
  unfoldable pub write_in : ℕ → (V → V) → Option V → Action V
  write_in k f none db = (err no_record, db)
  write_in k f (some v) db = (ok (f v), fd.put (modify k f (fd.get db)) db)

  -- `update({ where: { id }, data })`
  unfoldable pub update_in : ℕ → (V → V) → Action V
  unfolding write_in
  update_in k f db = write_in k f (find k (fd.get db)) db

  unfoldable pub claim_row : ℕ → (V → Bool) → (V → V) → Option V → Action Bool
  claim_row k p f none db = (ok false, db)
  claim_row k p f (some v) db =
      if p v then (ok true, fd.put (modify k f (fd.get db)) db) else (ok false, db)

  -- `updateMany({ where: { id, … }, data })`
  unfoldable pub claim_in : ℕ → (V → Bool) → (V → V) → Action Bool
  unfolding claim_row
  claim_in k p f db = claim_row k p f (find k (fd.get db)) db

  -- `create({ data })`
  unfoldable pub create_in : ℕ → V → Action ⊤
  create_in k v db = (ok tt, fd.put (Table.insert k v (fd.get db)) db)

module _ {V : Type 0} where
  -- Every row that passes the test is changed.
  unfoldable pub map_where : (V → Bool) → (V → V) → Table V → Table V
  map_where p f [] = []
  map_where p f ((k, v) ∷ t) =
      let rest = map_where p f t in if p v then (k, f v) ∷ rest else (k, v) ∷ rest

  -- `updateMany({ where, data })`
  unfoldable pub update_where : Field V → (V → Bool) → (V → V) → Action ⊤
  unfolding map_where
  update_where fd p f db = (ok tt, fd.put (map_where p f (fd.get db)) db)
