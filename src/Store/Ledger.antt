-- ===== src/Store/Ledger.antt =====
-- What the other writes do to the books: rows of other tables change nothing, and a write to an
-- escrow is followed in the table of escrows.
use farm_backend.Prelude.{
  ℕ, ◌≡◌, refl, ap, sym, ◌∙◌, Bool, true, false, Option, none, some, arith, ◌==◌, inl, inr,
  Bool-cases,
}
use farm_backend.Prelude.Int.{ℤ, pos, ◌+ℤ◌, ◌≤ℤ◌, int_laws}
use farm_backend.Prelude.Table.{Table, find, modify, insert}
use farm_backend.Store.Rows.{Db, Escrow, Transaction, LedgerEntry, Message}
use farm_backend.Store.Effects.{
  write_escrow, update_escrow, create_escrow, create_transaction, create_entry, create_message,
  claim_escrow, update_many_escrow, adjust_wallet, write_transaction, update_transaction,
}
use farm_backend.Store.Rules.{Post, returns, raises, Any, Post-mono}
use farm_backend.Store.Balance.{total, Books, shift, HasRoom, Books-adjust}

-- Everything about money, and every team, is as it was.
pub record SameMoney (db db' : Db) : Type 0 where
  pub wallets : db'.wallets ≡ db.wallets
  pub escrows : db'.escrows ≡ db.escrows
  pub transactions : db'.transactions ≡ db.transactions
  pub ledger : db'.ledger ≡ db.ledger
  pub members : db'.members ≡ db.members

pub SameMoney-refl : (db : Db) → SameMoney db db
SameMoney-refl db = record {
  wallets = refl;
  escrows = refl;
  transactions = refl;
  ledger = refl;
  members = refl;
}

pub SameMoney-trans : {a b c : Db} → SameMoney a b → SameMoney b c → SameMoney a c
SameMoney-trans p q = record {
  wallets = q.wallets ∙ p.wallets;
  escrows = q.escrows ∙ p.escrows;
  transactions = q.transactions ∙ p.transactions;
  ledger = q.ledger ∙ p.ledger;
  members = q.members ∙ p.members;
}

-- The two outcomes of a conditional update.
abbrev pub Claimed :
    ℤ → (ℕ → ℤ) → Table Escrow → ℕ → (Escrow → Bool) → (Escrow → Escrow) → Bool → Db → Type 0
Claimed sum debt es k p f true db =
    (e : Escrow) × (find k es ≡ some e) × (p e ≡ true) × Books sum debt (modify k f es) db
Claimed sum debt es k p f false db = Books sum debt es db

pub shift_zero : (k : ℕ) (debt : ℕ → ℤ) (j : ℕ) → debt j ≤ℤ shift k (pos 0) debt j
shift_zero k debt j = elim (Bool-cases (k == j)) [
  | inl same ↦ rw same (omega int_laws)
  | inr other ↦ rw other (omega arith)
]

module _ {sum : ℤ} {debt : ℕ → ℤ} {es : Table Escrow} where
  pub Books-SameMoney :
      {db db' : Db} → Books sum debt es db → SameMoney db db' → Books sum debt es db'
  unfolding total
  Books-SameMoney {db} {db'} b s = record {
    has_total = rw s.wallets b.has_total;
    covers = rw s.wallets b.covers;
    same = s.escrows ∙ b.same;
  }

  pub Books-mono :
      {debt' : ℕ → ℤ} {sum' : ℤ} {db : Db}
      → Books sum debt es db
      → sum ≡ sum'
      → ((k : ℕ) → debt' k ≤ℤ debt k)
      → Books sum' debt' es db
  Books-mono {debt'} b e le = record {
    has_total = b.has_total ∙ e;
    covers = λ k w found. (omega (arith, le k, b.covers k w found), (b.covers k w found).1);
    same = b.same;
  }

  pub room_of_le :
      {db : Db} (k : ℕ) (by lock : ℤ) → Books sum debt es db → lock ≤ℤ by → HasRoom k by lock db
  room_of_le k by lock b le w found = omega (int_laws, (b.covers k w found).1)

module _ {sum : ℤ} {debt : ℕ → ℤ} {es : Table Escrow} where
  -- An adjustment that locks nothing: money is added.
  pub Books-credit :
      (k : ℕ) (by : ℤ) (db : Db)
      → Books sum debt es db
      → pos 0 ≤ℤ by
      → Post Any (λ _. Books (sum +ℤ by) debt es) (adjust_wallet k by (pos 0) db)
  Books-credit k by db b le =
      Post-mono (adjust_wallet k by (pos 0) db)
        (Books-adjust k by (pos 0) db b (room_of_le k by (pos 0) b le))
        λ w d c. Books-mono c refl (shift_zero k debt)

  pub Books-create_transaction :
      (k : ℕ) (t : Transaction) (db : Db)
      → Books sum debt es db
      → Post Any (λ _. Books sum debt es) (create_transaction k t db)
  unfolding create_transaction total
  Books-create_transaction k t db b =
      returns (record { has_total = b.has_total; covers = b.covers; same = b.same })

  pub Books-create_entry :
      (t : LedgerEntry) (db : Db)
      → Books sum debt es db
      → Post Any (λ _. Books sum debt es) (create_entry t db)
  unfolding create_entry total
  Books-create_entry t db b =
      returns (record { has_total = b.has_total; covers = b.covers; same = b.same })

  pub Books-create_message :
      (m : Message) (db : Db)
      → Books sum debt es db
      → Post Any (λ _. Books sum debt es) (create_message m db)
  unfolding create_message total
  Books-create_message m db b =
      returns (record { has_total = b.has_total; covers = b.covers; same = b.same })

  pub Books-create_escrow :
      (k : ℕ) (e : Escrow) (db : Db)
      → Books sum debt es db
      → Post Any (λ _. Books sum debt (insert k e es)) (create_escrow k e db)
  unfolding create_escrow total
  Books-create_escrow k e db b =
      returns (record { has_total = b.has_total; covers = b.covers; same = ap (insert k e) b.same })

  wrote_escrow :
      (k : ℕ) (f : Escrow → Escrow) (db : Db) (o : Option Escrow)
      → Books sum debt es db
      → Post Any (λ _. Books sum debt (modify k f es)) (write_escrow k f o db)
  unfolding write_escrow total
  wrote_escrow k f db none b = raises tt
  wrote_escrow k f db (some e) b =
      returns (record { has_total = b.has_total; covers = b.covers; same = ap (modify k f) b.same })

  pub Books-update_escrow :
      (k : ℕ) (f : Escrow → Escrow) (db : Db)
      → Books sum debt es db
      → Post Any (λ _. Books sum debt (modify k f es)) (update_escrow k f db)
  unfolding update_escrow
  Books-update_escrow k f db b = wrote_escrow k f db (find k db.escrows) b

  tried_claim :
      (k : ℕ) (p : Escrow → Bool) (f : Escrow → Escrow) (db : Db) (o : Option Escrow)
      → find k es ≡ o
      → Books sum debt es db
      → Post Any (Claimed sum debt es k p f) (claim_escrow k p f o db)
  unfolding claim_escrow total
  tried_claim k p f db none found b = returns b
  tried_claim k p f db (some e) found b = elim (Bool-cases (p e)) [
    | inl passes ↦ rw passes (
        returns (
          e,
          found,
          passes,
          record { has_total = b.has_total; covers = b.covers; same = ap (modify k f) b.same },
        ))
    | inr fails ↦ rw fails (returns b)
  ]

  pub Books-claim :
      (k : ℕ) (p : Escrow → Bool) (f : Escrow → Escrow) (db : Db)
      → Books sum debt es db
      → Post Any (Claimed sum debt es k p f) (update_many_escrow k p f db)
  unfolding update_many_escrow
  Books-claim k p f db b = tried_claim k p f db (find k db.escrows) (ap (find k) (sym b.same)) b

  wrote_transaction :
      (k : ℕ) (f : Transaction → Transaction) (db : Db) (o : Option Transaction)
      → Books sum debt es db
      → Post Any (λ _. Books sum debt es) (write_transaction k f o db)
  unfolding write_transaction total
  wrote_transaction k f db none b = raises tt
  wrote_transaction k f db (some t) b =
      returns (record { has_total = b.has_total; covers = b.covers; same = b.same })

  pub Books-update_transaction :
      (k : ℕ) (f : Transaction → Transaction) (db : Db)
      → Books sum debt es db
      → Post Any (λ _. Books sum debt es) (update_transaction k f db)
  unfolding update_transaction
  Books-update_transaction k f db b = wrote_transaction k f db (find k db.transactions) b
