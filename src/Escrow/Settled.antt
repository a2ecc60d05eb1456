-- ===== src/Escrow/Settled.antt =====
-- Settled escrows, those completed, cancelled or refunded, and the writes to them.
use farm_backend.Prelude.{
  ℕ, ◌≡◌, ◌≢◌, refl, ap, sym, ◌∙◌, Bool, true, false, Option, none, some, ◌==◌, inl, inr,
  Bool-cases, ==_iff, arith, some_inj, ltb,
}
use farm_backend.Prelude.Int.{ℤ, pos, negate, ◌-ℤ◌}
use farm_backend.Prelude.Text.{Text}
use farm_backend.Prelude.Table.{find, modify, find-modify, find-insert_ne}
use farm_backend.Store.{
  Db, Wallet, Escrow, EscrowStatus, completed, cancelled, refunded, Transaction, LedgerEntry,
  Message, Result, Action, pure, transaction, moved, write_wallet, adjust_wallet, write_escrow,
  update_escrow, create_escrow, create_transaction, create_entry, create_message, claim_escrow,
  update_many_escrow,
}
use farm_backend.Store.Rules.{
  Post, returns, raises, Any, Post-bind, Post-then, Post-gets, Post-or_raise, Post-pure,
  Post-branch, Post-transaction,
}
use farm_backend.Store.Ledger.{SameMoney}
use farm_backend.Auth.Harmless.{IsHarmless}
use farm_backend.Escrow.Env.{Env}
use farm_backend.Escrow.Money.{platform_wallet, pay_platform, credit_superadmin}
use farm_backend.Escrow.Release.{pay_seller}

abbrev pub is_final : EscrowStatus → Bool
is_final completed = true
is_final cancelled = true
is_final refunded = true
is_final _ = false

-- The table has the escrow, and it is settled.
pub record IsSettled (id : ℕ) (db : Db) : Type 0 where
  pub row : Escrow
  pub found : find id db.escrows ≡ some row
  pub is_settled : is_final row.status ≡ true

pub IsSettled-same :
    {id : ℕ} {db d : Db} → IsSettled id db → d.escrows ≡ db.escrows → IsSettled id d
IsSettled-same {id} s same = record {
  row = s.row;
  found = ap (find id) same ∙ s.found;
  is_settled = s.is_settled;
}

-- The escrow stays settled, whether the action returns or raises.
abbrev pub Stays : {A : Type 0} → ℕ → Result A × Db → Type 0
Stays {A} id r = Post {A = A} (IsSettled id) (λ _. IsSettled id) r

pub Stays-of_harmless :
    {A : Type 0} {id : ℕ} {db : Db} (r : Result A × Db)
    → IsSettled id db
    → IsHarmless db r
    → Stays id r
Stays-of_harmless r s (returns h) = returns (IsSettled-same s h.escrows)
Stays-of_harmless r s (raises h) = raises (IsSettled-same s h.escrows)

-- Where the checks before a transaction raise, the escrow is settled as before.
pub checked :
    {A : Type 0} {id : ℕ} {db : Db} (r : Result A × Db)
    → IsSettled id db
    → IsHarmless db r
    → Post (IsSettled id) (λ _. SameMoney db) r
checked r s (returns h) = returns h
checked r s (raises h) = raises (IsSettled-same s h.escrows)

-- What happens to an exception's state is of no interest in a transaction.
pub forget : {A : Type 0} {id : ℕ} (r : Result A × Db) → Stays id r → Post Any (λ _. IsSettled id) r
forget r (returns h) = returns h
forget r (raises h) = raises tt

pub transaction-Stays :
    {A : Type 0} {id : ℕ} (m : Action A) (db : Db)
    → IsSettled id db
    → Stays id (m db)
    → Stays id (transaction m db)
transaction-Stays m db s p = Post-transaction m db s (forget (m db) p)

pub fresh_ne : {id k : ℕ} {db : Db} → find k db.escrows ≡ none → IsSettled id db → k ≢ id
fresh_ne {db = db} fresh s same =
    let here = ap (λ i. find i db.escrows) same ∙ s.found in absurd (cc)

module _ {id : ℕ} where
  pub adjust_wallet-Stays :
      (k : ℕ) (by lock : ℤ) (db : Db) → IsSettled id db → Stays id (adjust_wallet k by lock db)
  unfolding adjust_wallet write_wallet
  adjust_wallet-Stays k by lock db s = go (find k db.wallets)
    where
      go : (o : Option Wallet) → Stays id (write_wallet k (moved by lock) o db)
      go none = raises s
      go (some w) = returns (IsSettled-same s refl)

  pub create_transaction-Stays :
      (k : ℕ) (t : Transaction) (db : Db) → IsSettled id db → Stays id (create_transaction k t db)
  unfolding create_transaction
  create_transaction-Stays k t db s = returns (IsSettled-same s refl)

  create_entry-Stays : (e : LedgerEntry) (db : Db) → IsSettled id db → Stays id (create_entry e db)
  unfolding create_entry
  create_entry-Stays e db s = returns (IsSettled-same s refl)

  pub create_message-Stays :
      (m : Message) (db : Db) → IsSettled id db → Stays id (create_message m db)
  unfolding create_message
  create_message-Stays m db s = returns (IsSettled-same s refl)

  -- A write that settles, or that keeps what is settled so.
  pub update_escrow-Stays :
      (k : ℕ) (f : Escrow → Escrow) (db : Db)
      → ((k == id) ≡ true → (r : Escrow) → is_final r.status ≡ true → is_final (f r).status ≡ true)
      → IsSettled id db
      → Stays id (update_escrow k f db)
  unfolding update_escrow write_escrow
  update_escrow-Stays k f db keeps s = go (find k db.escrows)
    where
      unchanged : (k == id) ≡ false → IsSettled id (record db { escrows = modify k f db.escrows })
      unchanged other = record {
        row = s.row;
        found = rw (find-modify id k f db.escrows, s.found, other) refl;
        is_settled = s.is_settled;
      }

      changed : IsSettled id (record db { escrows = modify k f db.escrows })
      changed = elim (Bool-cases (k == id)) [
        | inl same ↦ record {
          row = f s.row;
          found = rw (find-modify id k f db.escrows, s.found, same) refl;
          is_settled = keeps same s.row s.is_settled;
        }
        | inr other ↦ unchanged other
      ]

      go : (o : Option Escrow) → Stays id (write_escrow k f o db)
      go none = raises s
      go (some e) = returns changed

  pub create_escrow-Stays :
      (k : ℕ) (e : Escrow) (db : Db)
      → find k db.escrows ≡ none
      → IsSettled id db
      → Stays id (create_escrow k e db)
  unfolding create_escrow
  create_escrow-Stays k e db fresh s = returns (record {
    row = s.row;
    found = find-insert_ne id k e db.escrows (fresh_ne fresh s) ∙ s.found;
    is_settled = s.is_settled;
  })

  -- A conditional update whose condition no settled escrow meets.
  pub update_many-Stays :
      (k : ℕ) (p : Escrow → Bool) (f : Escrow → Escrow) (db : Db)
      → ((r : Escrow) → p r ≡ true → is_final r.status ≡ false)
      → IsSettled id db
      → Stays id (update_many_escrow k p f db)
  unfolding update_many_escrow claim_escrow
  update_many-Stays k p f db opens s = go (find k db.escrows) refl
    where
      unchanged : (k == id) ≡ false → IsSettled id (record db { escrows = modify k f db.escrows })
      unchanged other = record {
        row = s.row;
        found = rw (find-modify id k f db.escrows, s.found, other) refl;
        is_settled = s.is_settled;
      }

      changed :
          (e : Escrow)
          → find k db.escrows ≡ some e
          → p e ≡ true
          → IsSettled id (record db { escrows = modify k f db.escrows })
      changed e here passes = elim (Bool-cases (k == id)) [
        | inl same ↦
            let same_row =
              some_inj
                (sym here ∙ (ap (λ i. find i db.escrows) ((==_iff k id).0 same) ∙ s.found)) in
            let is_open = opens e passes in absurd (cc)
        | inr other ↦ unchanged other
      ]

      go : (o : Option Escrow) → find k db.escrows ≡ o → Stays id (claim_escrow k p f o db)
      go none here = returns s
      go (some e) here = elim (Bool-cases (p e)) [
        | inl passes ↦ rw passes (returns (changed e here passes))
        | inr fails ↦ rw fails (returns s)
      ]

  -- A conditional update that settles what it changes.
  pub update_many_settles :
      (p : Escrow → Bool) (f : Escrow → Escrow) (db : Db)
      → ((r : Escrow) → is_final (f r).status ≡ true)
      → Post Any (λ claimed d. claimed ≡ true → IsSettled id d) (update_many_escrow id p f db)
  unfolding update_many_escrow claim_escrow
  update_many_settles p f db settles = go (find id db.escrows) refl
    where
      go :
          (o : Option Escrow)
          → find id db.escrows ≡ o
          → Post Any (λ claimed d. claimed ≡ true → IsSettled id d) (claim_escrow id p f o db)
      go none here = returns (λ h. absurd (cc))
      go (some e) here = elim (Bool-cases (p e)) [
        | inl passes ↦ rw passes (
            returns (λ _. record {
              row = f e;
              found = rw (find-modify id id f db.escrows, here) (ground arith);
              is_settled = settles e;
            }))
        | inr fails ↦ rw fails (returns (λ h. absurd (cc)))
      ]

  pub credit_superadmin-Stays :
      (fee : ℕ) (db : Db) → IsSettled id db → Stays id (credit_superadmin fee db)
  unfolding credit_superadmin pay_platform
  credit_superadmin-Stays fee db s =
      Post-branch (ltb 0 fee) _ (pure tt) db
        (λ _. Post-gets platform_wallet _ db (
          Post-or_raise _ (platform_wallet db) _ db s λ w _.
            Post-then (adjust_wallet w.0 (pos fee) (pos 0)) _ db (adjust_wallet-Stays _ _ _ db s)
              λ _ d s'. create_entry-Stays _ d s'))
        λ _. Post-pure tt db s

  pub pay_seller-Stays :
      (env : Env) (k : ℕ) (e : Escrow) (bw sw amount fee : ℕ) (label : Option Text) (db : Db)
      → IsSettled id db
      → Stays id (pay_seller env k e bw sw amount fee label db)
  unfolding pay_seller
  pay_seller-Stays env k e bw sw amount fee label db s =
      let out = negate (pos amount) in
      let paid = pos amount -ℤ pos fee in
      Post-then (adjust_wallet bw out out) _ db (adjust_wallet-Stays bw out out db s) λ _ d₁ s₁.
        Post-then (adjust_wallet sw paid (pos 0)) _ d₁ (adjust_wallet-Stays sw paid (pos 0) d₁ s₁)
          λ _ d₂ s₂.
            Post-bind (create_transaction env.new_transaction _) _ d₂
              (create_transaction-Stays env.new_transaction _ d₂ s₂)
              λ txn d₃ s₃. Post-then (create_entry _) _ d₃ (create_entry-Stays _ d₃ s₃) λ _ d₄ s₄.
                Post-then (create_entry _) _ d₄ (create_entry-Stays _ d₄ s₄)
                  λ _ d₅ s₅. credit_superadmin-Stays fee d₅ s₅
