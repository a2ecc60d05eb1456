-- ===== src/Escrow/Debt.antt =====
-- What an escrow holds of its buyer's wallet, and the invariant of the wallets.
use farm_backend.Prelude.{
  ℕ, ◌≤◌, ◌≡◌, refl, Bool, true, false, Option, some, ◌&&◌, if◌then◌else◌, arith, ltb,
}
use farm_backend.Prelude.Int.{ℤ, pos, negate, ◌+ℤ◌, ◌-ℤ◌, int_laws, eq_of_parts, +ℤ_parts}
use farm_backend.Prelude.Table.{Table, find, modify, insert, sum_by, sum_by-modify, sum_by-insert}
use farm_backend.Prelude.Text.{Text}
use farm_backend.Store.{
  Db, Escrow, EscrowStatus, active, disputed, create_transaction, create_entry, adjust_wallet, pure,
}
use farm_backend.Store.Rules.{
  Post, Any, Post-mono, Post-bind, Post-then, Post-gets, Post-or_raise, Post-pure, Post-branch,
}
use farm_backend.Store.Balance.{total, IsCovered, Books, shift, Books-adjust}
use farm_backend.Store.Ledger.{
  Books-mono, room_of_le, Books-credit, Books-create_transaction, Books-create_entry,
}
use farm_backend.Escrow.Env.{Env}
use farm_backend.Escrow.Money.{
  remaining_amount, is_id, pay_platform, credit_superadmin, platform_wallet,
}
use farm_backend.Escrow.Release.{pay_seller}

-- The statuses in which an escrow's funds are locked.
abbrev pub is_open : EscrowStatus → Bool
is_open active = true
is_open disputed = true
is_open _ = false

-- What escrow `e` locks of wallet `k`.
abbrev pub held : ℕ → Escrow → ℤ
held k e = if is_open e.status && is_id k e.buyer_wallet_id then pos (remaining_amount e) else pos 0

-- What all escrows together lock of wallet `k`.
unfoldable pub owed : Table Escrow → ℕ → ℤ
owed es k = sum_by (held k) es

-- The invariant: of every wallet at least what its open escrows still owe is locked, and no more is
-- locked than the wallet holds.
pub record Solvent (db : Db) : Type 0 where
  pub covered : IsCovered (owed db.escrows) db.wallets

pub Books-of_Solvent : (db : Db) → Solvent db → Books (total db) (owed db.escrows) db.escrows db
Books-of_Solvent db s = record { has_total = refl; covers = s.covered; same = refl }

pub Solvent-of_Books :
    {sum : ℤ} {es : Table Escrow} (db : Db) → Books sum (owed es) es db → Solvent db
Solvent-of_Books db b = record { covered = λ k w found. rw b.same (b.covers k w found) }

-- Changing one escrow changes what is owed by the change of what it holds.
pub owed-modify :
    (id : ℕ) (f : Escrow → Escrow) {e : Escrow} (es : Table Escrow) (k : ℕ)
    → find id es ≡ some e
    → owed (modify id f es) k +ℤ held k e ≡ owed es k +ℤ held k (f e)
unfolding owed
owed-modify id f es k found = sum_by-modify (held k) id f es found

pub owed-insert :
    (id : ℕ) (e : Escrow) (es : Table Escrow) (k : ℕ)
    → owed (insert id e es) k ≡ owed es k +ℤ held k e
unfolding owed
owed-insert id e es k = sum_by-insert (held k) id e es

pub add_nothing : (sum : ℤ) (n : ℕ) → ltb 0 n ≡ false → sum ≡ sum +ℤ pos n
add_nothing sum n h = eq_of_parts sum (sum +ℤ pos n) (ground (arith, +ℤ_parts sum (pos n)))

paid_out :
    (sum : ℤ) (amount fee : ℕ)
    → sum +ℤ negate (pos amount) +ℤ (pos amount -ℤ pos fee) +ℤ pos fee ≡ sum
paid_out sum amount fee = omega int_laws

module _ {sum : ℤ} {debt : ℕ → ℤ} {es : Table Escrow} where
  Books-pay_platform :
      (fee : ℕ) (db : Db)
      → Books sum debt es db
      → Post Any (λ _. Books (sum +ℤ pos fee) debt es) (pay_platform fee db)
  unfolding pay_platform
  Books-pay_platform fee db b = Post-gets platform_wallet _ db (
      Post-or_raise _ (platform_wallet db) _ db tt λ w found.
        Post-then (adjust_wallet w.0 (pos fee) (pos 0)) _ db
          (Books-credit w.0 (pos fee) db b (omega arith)) λ w' d b'. Books-create_entry _ d b')

  pub Books-credit_superadmin :
      (fee : ℕ) (db : Db)
      → Books sum debt es db
      → Post Any (λ _. Books (sum +ℤ pos fee) debt es) (credit_superadmin fee db)
  unfolding credit_superadmin
  Books-credit_superadmin fee db b =
      Post-branch (ltb 0 fee) (pay_platform fee) (pure tt) db (λ _. Books-pay_platform fee db b)
        λ no_fee. Post-pure tt db (Books-mono b (add_nothing sum fee no_fee) (λ k. omega arith))

module _ {sum : ℤ} {debt : ℕ → ℤ} {es : Table Escrow} where
  -- The writes that pay a seller keep the total, and free what is paid at the buyer's wallet.
  pub Books-pay_seller :
      (env : Env) (id : ℕ) (e : Escrow) (buyer_wallet seller_wallet amount fee : ℕ)
      (label : Option Text) (db : Db)
      → Books sum debt es db
      → fee ≤ amount
      → Post Any
          (λ _. Books sum (shift buyer_wallet (negate (pos amount)) debt) es)
          (pay_seller env id e buyer_wallet seller_wallet amount fee label db)
  unfolding pay_seller
  Books-pay_seller env id e bw sw amount fee label db b le =
      let out = negate (pos amount) in
      let paid = pos amount -ℤ pos fee in
      Post-then (adjust_wallet bw out out) _ db
        (Books-adjust bw out out db b (room_of_le bw out out b (omega arith)))
        λ _ d₁ b₁.
          Post-then (adjust_wallet sw paid (pos 0)) _ d₁
            (Books-credit sw paid d₁ b₁ (omega int_laws))
            λ _ d₂ b₂.
              Post-bind (create_transaction env.new_transaction _) _ d₂
                (Books-create_transaction env.new_transaction _ d₂ b₂)
                λ txn d₃ b₃. Post-then (create_entry _) _ d₃ (Books-create_entry _ d₃ b₃) λ _ d₄ b₄.
                  Post-then (create_entry _) _ d₄ (Books-create_entry _ d₄ b₄) λ _ d₅ b₅.
                    Post-mono (credit_superadmin fee d₅) (Books-credit_superadmin fee d₅ b₅)
                      λ _ d c. Books-mono c (paid_out sum amount fee) (λ k. omega arith)
