-- ===== src/Store/Side.antt =====
-- What the actions on a table of its own do: they move no money, and a conditional update that
-- changes a row has found it as the condition says.
use farm_backend.Prelude.{
  ℕ, ◌≡◌, refl, ap, sym, ◌∙◌, Bool, true, false, Option, none, some, [], ◌∷◌, ◌==◌, arith, inl, inr,
  Bool-cases, some_inj, subst, if◌then◌else◌,
}
use farm_backend.Prelude.Int.{ℤ, pos, negate, leb_ℤ}
use farm_backend.Prelude.Table.{Table, find, modify, insert, find-modify}
use farm_backend.Store.Rows.{Db, Escrow, User, Wallet, Transaction, LedgerEntry}
use farm_backend.Store.Effects.{
  Result, moved, adjust_wallet, update_user, write_user, write_wallet, create_transaction,
  update_transaction, write_transaction, create_entry, debit_wallet, debit_row,
}
use farm_backend.Store.Rules.{Post, returns, raises, Any}
use farm_backend.Store.Balance.{total, Books}
use farm_backend.Store.Fields.{
  Field, write_in, update_in, claim_row, claim_in, create_in, map_where, update_where,
}

module _ {V : Type 0} where
  -- A row that is there stays when rows are added behind it.
  pub find-insert_found :
      (i k : ℕ) (w : V) (t : Table V) {v : V} → find i t ≡ some v → find i (insert k w t) ≡ some v
  unfolding find insert
  find-insert_found i k w [] h = absurd (cc)
  find-insert_found i k w ((j, x) ∷ t) {v} h = grind (arith, find-insert_found i k w t {v = v})

  -- A row that fails the test stays.
  pub find-map_where_not :
      (p : V → Bool) (f : V → V) (i : ℕ) (t : Table V) {v : V}
      → find i t ≡ some v
      → p v ≡ false
      → find i (map_where p f t) ≡ some v
  unfolding find map_where
  find-map_where_not p f i [] h fails = absurd (cc)
  find-map_where_not p f i ((j, x) ∷ t) {v} h fails = elim (Bool-cases (j == i)) [
    | inl same ↦
        let e : x ≡ v = some_inj (rw same at h) in
        let e' : p x ≡ false = ap p e ∙ fails in rw (e', same) (ap some e)
    | inr other ↦
        let later = find-map_where_not p f i t (rw other at h) fails in
        elim (Bool-cases (p x)) [
          | inl passes ↦ rw (passes, other) later
          | inr not_it ↦ rw (not_it, other) later
        ]
  ]

  abbrev pub map_if_passes : (V → Bool) → (V → V) → Option V → Option V
  map_if_passes p f none = none
  map_if_passes p f (some v) = some (if p v then f v else v)

  pub find-map_where :
      (i : ℕ) (p : V → Bool) (f : V → V) (t : Table V)
      → find i (map_where p f t) ≡ map_if_passes p f (find i t)
  unfolding find map_where
  find-map_where i p f [] = refl
  find-map_where i p f ((j, x) ∷ t) = ground (arith, find-map_where i p f t)

  pub find-modify_other :
      (i k : ℕ) (f : V → V) (t : Table V) {v : V}
      → (k == i) ≡ false
      → find i t ≡ some v
      → find i (modify k f t) ≡ some v
  find-modify_other i k f t other found = rw (find-modify i k f t, other, found) refl

module _ {V : Type 0} {sum : ℤ} {debt : ℕ → ℤ} {es : Table Escrow} (fd : Field V) where
  pub Books-put : (t : Table V) (db : Db) → Books sum debt es db → Books sum debt es (fd.put t db)
  unfolding total
  Books-put t db b = record {
    has_total = rw (fd.same_wallets t db) b.has_total;
    covers = rw (fd.same_wallets t db) b.covers;
    same = fd.same_escrows t db ∙ b.same;
  }

  wrote_in :
      (k : ℕ) (f : V → V) (o : Option V) (db : Db)
      → Books sum debt es db
      → Post Any (λ _. Books sum debt es) (write_in fd k f o db)
  unfolding write_in
  wrote_in k f none db b = raises tt
  wrote_in k f (some v) db b = returns (Books-put (modify k f (fd.get db)) db b)

  pub Books-update_in :
      (k : ℕ) (f : V → V) (db : Db)
      → Books sum debt es db
      → Post Any (λ _. Books sum debt es) (update_in fd k f db)
  unfolding update_in
  Books-update_in k f db b = wrote_in k f (find k (fd.get db)) db b

-- What `update` leaves at its own id.
pub update_in-found :
    {V : Type 0} (fd : Field V) (k : ℕ) (f : V → V) (db : Db)
    → Post Any (λ v d. (x : V) × (v ≡ f x) × (find k (fd.get d) ≡ some v)) (update_in fd k f db)
unfolding update_in write_in
update_in-found {V} fd k f db = go (find k (fd.get db)) refl
  where
    go :
        (o : Option V)
        → find k (fd.get db) ≡ o
        → Post Any
            (λ v d. (x : V) × (v ≡ f x) × (find k (fd.get d) ≡ some v))
            (write_in fd k f o db)
    go none at = raises tt
    go (some v) at = returns (
      v,
      refl,
      rw (fd.got (modify k f (fd.get db)) db, find-modify k k f (fd.get db), at) (ground arith),
    )

-- What holds of the table, whatever is written elsewhere.
module _ {V : Type 0} (fd : Field V) (P : Table V → Type 0) where
  abbrev pub On : Db → Type 0
  On db = P (fd.get db)

  pub On-put : (t : Table V) (db : Db) → P t → On (fd.put t db)
  On-put t db h = subst P (sym (fd.got t db)) h

  pub On-adjust_wallet :
      (k : ℕ) (by lock : ℤ) (db : Db) → On db → Post On (λ _. On) (adjust_wallet k by lock db)
  unfolding adjust_wallet write_wallet
  On-adjust_wallet k by lock db h = go (find k db.wallets)
    where
      go : (o : Option Wallet) → Post On (λ _. On) (write_wallet k (moved by lock) o db)
      go none = raises h
      go (some w) =
          returns (subst P (sym (fd.past_wallets (modify k (moved by lock) db.wallets) db)) h)

  pub On-debit_wallet :
      (k amount : ℕ) (db : Db) → On db → Post On (λ _. On) (debit_wallet k amount db)
  unfolding debit_wallet debit_row
  On-debit_wallet k amount db h = go (find k db.wallets)
    where
      go : (o : Option Wallet) → Post On (λ _. On) (debit_row k amount o db)
      go none = returns h
      go (some w) = elim (Bool-cases (leb_ℤ (pos amount) w.balance)) [
        | inl enough ↦ rw enough (
            returns (
              subst P
                (sym
                  (fd.past_wallets (modify k (moved (negate (pos amount)) (pos 0)) db.wallets) db))
                h))
        | inr short ↦ rw short (returns h)
      ]

  pub On-create_transaction :
      (k : ℕ) (t : Transaction) (db : Db) → On db → Post On (λ _. On) (create_transaction k t db)
  unfolding create_transaction
  On-create_transaction k t db h = returns (subst P (sym (fd.past_transactions _ db)) h)

  pub On-update_transaction :
      (k : ℕ) (f : Transaction → Transaction) (db : Db)
      → On db
      → Post On (λ _. On) (update_transaction k f db)
  unfolding update_transaction write_transaction
  On-update_transaction k f db h = go (find k db.transactions)
    where
      go : (o : Option Transaction) → Post On (λ _. On) (write_transaction k f o db)
      go none = raises h
      go (some t) = returns (subst P (sym (fd.past_transactions (modify k f db.transactions) db)) h)

  pub On-create_entry : (e : LedgerEntry) (db : Db) → On db → Post On (λ _. On) (create_entry e db)
  unfolding create_entry
  On-create_entry e db h = returns (subst P (sym (fd.past_ledger _ db)) h)

  pub On-update_in :
      (k : ℕ) (f : V → V) (db : Db)
      → ((x : V) → find k (fd.get db) ≡ some x → P (modify k f (fd.get db)))
      → On db
      → Post On (λ _. On) (update_in fd k f db)
  unfolding update_in write_in
  On-update_in k f db step h = go (find k (fd.get db)) refl
    where
      go : (o : Option V) → find k (fd.get db) ≡ o → Post On (λ _. On) (write_in fd k f o db)
      go none at = raises h
      go (some v) at = returns (On-put _ db (step v at))

  pub On-claim_in :
      (k : ℕ) (p : V → Bool) (f : V → V) (db : Db)
      → ((x : V) → find k (fd.get db) ≡ some x → p x ≡ true → P (modify k f (fd.get db)))
      → On db
      → Post On (λ _. On) (claim_in fd k p f db)
  unfolding claim_in claim_row
  On-claim_in k p f db step h = go (find k (fd.get db)) refl
    where
      go : (o : Option V) → find k (fd.get db) ≡ o → Post On (λ _. On) (claim_row fd k p f o db)
      go none at = returns h
      go (some v) at = elim (Bool-cases (p v)) [
        | inl passes ↦ rw passes (returns (On-put _ db (step v at passes)))
        | inr fails ↦ rw fails (returns h)
      ]

  pub On-update_where :
      (p : V → Bool) (f : V → V) (db : Db)
      → P (map_where p f (fd.get db))
      → Post On (λ _. On) (update_where fd p f db)
  unfolding update_where
  On-update_where p f db h = returns (On-put _ db h)

  pub On-write_user :
      (k : ℕ) (f : User → User) (db : Db) → On db → Post On (λ _. On) (update_user k f db)
  unfolding update_user write_user
  On-write_user k f db h = go (find k db.users)
    where
      go : (o : Option User) → Post On (λ _. On) (write_user k f o db)
      go none = raises h
      go (some u) = returns (subst P (sym (fd.past_users (modify k f db.users) db)) h)

  pub On-create_in :
      (k : ℕ) (v : V) (db : Db)
      → (P (fd.get db) → P (insert k v (fd.get db)))
      → On db
      → Post On (λ _. On) (create_in fd k v db)
  unfolding create_in
  On-create_in k v db step h = returns (On-put _ db (step h))

-- The row of the id `i` in the table is `r`.
module _ {V : Type 0} (fd : Field V) (i : ℕ) (r : V) where
  abbrev pub HasRow : Table V → Type 0
  HasRow t = find i t ≡ some r

  abbrev pub Row : Db → Type 0
  Row = On fd HasRow

  pub Row-update_in :
      (k : ℕ) (f : V → V) (db : Db)
      → (k == i) ≡ false
      → Row db
      → Post Row (λ _. Row) (update_in fd k f db)
  Row-update_in k f db other h =
      On-update_in fd HasRow k f db (λ x _. find-modify_other i k f (fd.get db) other h) h

  pub Row-create_in : (k : ℕ) (v : V) (db : Db) → Row db → Post Row (λ _. Row) (create_in fd k v db)
  Row-create_in k v db h = On-create_in fd HasRow k v db (find-insert_found i k v (fd.get db)) h

  pub Row-update_where :
      (p : V → Bool) (f : V → V) (db : Db)
      → p r ≡ false
      → Row db
      → Post Row (λ _. Row) (update_where fd p f db)
  unfolding update_where
  Row-update_where p f db fails h =
      returns (On-put fd HasRow _ db (find-map_where_not p f i (fd.get db) h fails))

-- The state that an action ends in, by return or exception.
pub last : {A : Type 0} {E : Db → Type 0} (r : Result A × Db) → Post E (λ _. E) r → E r.1
last r (returns h) = h
last r (raises h) = h
