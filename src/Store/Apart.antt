-- ===== src/Store/Apart.antt =====
-- What no write to a table touches holds after every action on that table.
use farm_backend.Prelude.{ℕ, ◌≡◌, Bool, true, not, Option, none, some, inl, inr, Bool-cases}
use farm_backend.Prelude.Table.{Table, find}
use farm_backend.Store.Rows.{Db}
use farm_backend.Store.Rules.{Post, returns, raises}
use farm_backend.Store.Fields.{
  Field, write_in, update_in, claim_row, claim_in, create_in, update_where,
}

module _ {W : Type 0} (other : Field W) (Q : Db → Type 0)
    (closed : (t : Table W) (db : Db) → Q db → Q (other.put t db)) where
  pub Apart-claim_in :
      (k : ℕ) (p : W → Bool) (f : W → W) (db : Db)
      → Q db
      → Post Q (λ _. Q) (claim_in other k p f db)
  unfolding claim_in claim_row
  Apart-claim_in k p f db h = go (find k (other.get db))
    where
      go : (o : Option W) → Post Q (λ _. Q) (claim_row other k p f o db)
      go none = returns h
      go (some w) = elim (Bool-cases (p w)) [
        | inl passes ↦ rw passes (returns (closed _ db h))
        | inr fails ↦ rw fails (returns h)
      ]

  pub Apart-update_in :
      (k : ℕ) (f : W → W) (db : Db) → Q db → Post Q (λ _. Q) (update_in other k f db)
  unfolding update_in write_in
  Apart-update_in k f db h = go (find k (other.get db))
    where
      go : (o : Option W) → Post Q (λ _. Q) (write_in other k f o db)
      go none = raises h
      go (some w) = returns (closed _ db h)

  pub Apart-create_in : (k : ℕ) (w : W) (db : Db) → Q db → Post Q (λ _. Q) (create_in other k w db)
  unfolding create_in
  Apart-create_in k w db h = returns (closed _ db h)

  pub Apart-update_where :
      (p : W → Bool) (f : W → W) (db : Db) → Q db → Post Q (λ _. Q) (update_where other p f db)
  unfolding update_where
  Apart-update_where p f db h = returns (closed _ db h)

-- A conditional update that changes no row leaves the database as it is.
pub missed_claim :
    {W : Type 0} (fd : Field W) {Q : Db → Type 0} (k : ℕ) (p : W → Bool) (f : W → W) (db : Db)
    → Q db
    → Post Q (λ b d. not b ≡ true → Q d) (claim_in fd k p f db)
unfolding claim_in claim_row
missed_claim {W} fd {Q} k p f db h = go (find k (fd.get db))
  where
    go : (o : Option W) → Post Q (λ b d. not b ≡ true → Q d) (claim_row fd k p f o db)
    go none = returns (λ _. h)
    go (some w) = elim (Bool-cases (p w)) [
      | inl passes ↦ rw passes (returns (λ claimed. absurd (cc)))
      | inr fails ↦ rw fails (returns (λ _. h))
    ]
