-- ===== src/Escrow/Giveback.antt =====
-- `executeRefund`: what its writes do to the books.
use farm_backend.Prelude.{ℕ, ◌≡◌, refl, ◌∙◌, Bool, true, false, not, Option, none, some, arith}
use farm_backend.Prelude.Int.{ℤ, pos, negate, ◌+ℤ◌, int_laws}
use farm_backend.Prelude.Table.{Table, find}
use farm_backend.Store.{
  Db, Escrow, no_record, adjust_wallet, create_transaction, update_many_escrow, raise_if, pure,
  gets, or_raise, ◌>>=◌, ◌>>◌,
}
use farm_backend.Store.Rules.{
  Post, Any, Post-mono, Post-bind, Post-then, Post-gets, Post-or_raise, Post-pure, Post-check,
  Post-transaction,
}
use farm_backend.Store.Balance.{total, Books, shift, Books-adjust}
use farm_backend.Store.Ledger.{
  SameMoney-refl, Books-mono, Books-claim, Claimed, room_of_le, Books-create_transaction,
}
use farm_backend.Escrow.Env.{Env}
use farm_backend.Escrow.Money.{remaining_amount}
use farm_backend.Escrow.Release.{Resolution, status_eq, settled_from, not_open, fresh_or}
use farm_backend.Escrow.Refund.{refund_row, refund_transaction, refund_tx, execute_refund}
use farm_backend.Escrow.Debt.{is_open, owed, Solvent, Books-of_Solvent, Solvent-of_Books}
use farm_backend.Escrow.Settle.{
  Keeps, Keeps-of_Post, IsRowOf, owed_less, held-closed, open_of, left_of,
}

module _ (now : ℕ) (r : Escrow) where
  pub refund_row_keeps :
      (res : Option Resolution) → remaining_amount (refund_row now res r) ≡ remaining_amount r
  unfolding remaining_amount
  refund_row_keeps none = refl
  refund_row_keeps (some x) = refl

  refund_row_closes : (res : Option Resolution) → is_open (refund_row now res r).status ≡ false
  refund_row_closes none = refl
  refund_row_closes (some x) = refl

plus_zero : (a : ℤ) → a +ℤ pos 0 ≡ a
plus_zero a = omega int_laws

module _ (env : Env) (id : ℕ) (e : Escrow) (res : Option Resolution) where
  -- The writes that free an amount.
  freed :
      {sum : ℤ} {debt : ℕ → ℤ} {es : Table Escrow} (bw amount : ℕ) (db : Db)
      → Books sum debt es db
      → Post Any
          (λ _. Books sum (shift bw (negate (pos amount)) debt) es)
          ((adjust_wallet bw (pos 0) (negate (pos amount))
              >> (create_transaction env.new_transaction (refund_transaction env id e bw amount)
                  >> pure amount))
            db)
  freed {sum} bw amount db b =
      let out = negate (pos amount) in
      Post-then (adjust_wallet bw (pos 0) out) _ db
        (Books-adjust bw (pos 0) out db b (room_of_le bw (pos 0) out b (omega int_laws)))
        λ _ d₁ b₁.
          Post-then (create_transaction env.new_transaction _) _ d₁
            (Books-create_transaction env.new_transaction _ d₁ b₁)
            λ _ d₂ b₂. Post-pure amount d₂ (Books-mono b₂ (plus_zero sum) (λ k. omega arith))

  after_claim :
      (db : Db) (claimed : Bool) (d : Db)
      → IsRowOf id e db
      → Claimed
          (total db)
          (owed db.escrows)
          db.escrows
          id
          (λ r. status_eq r.status (settled_from res))
          (refund_row env.now res)
          claimed
          d
      → Post Any
          (λ _ d'. (total d' ≡ total db) × Solvent d')
          ((raise_if (not claimed) (not_open res)
              >> (gets (λ d. find id d.escrows) >>= λ row.
                  or_raise no_record e.buyer_wallet_id >>= λ bw.
                  adjust_wallet bw (pos 0) (negate (pos (remaining_amount (fresh_or e row))))
                  >> (create_transaction env.new_transaction
                        (refund_transaction env id e bw (remaining_amount (fresh_or e row)))
                      >> pure (remaining_amount (fresh_or e row)))))
            d)
  after_claim db false d same c =
      Post-check (not false) (not_open res) _ d tt (λ impossible. absurd (cc))
  after_claim db true d same (r, found, passes, b) =
      let f = refund_row env.now res in
      let left = left_of db.escrows id e f r d (refund_row_keeps env.now r res) found b in
      Post-check (not true) (not_open res) _ d tt λ _.
        Post-gets (λ d. find id d.escrows) _ d
          (rw left (
            Post-or_raise no_record e.buyer_wallet_id _ d tt λ bw wallet.
              Post-mono _ (freed bw (remaining_amount r) d b) λ _ d' c'. (
                c'.has_total,
                Solvent-of_Books d' (
                    Books-mono c' refl (λ k.
                      owed_less id bw f r db.escrows (remaining_amount r) k found (
                        held-closed bw r (f r) k (open_of r.status res passes)
                          (same r found ∙ wallet) (refund_row_closes env.now r res)))),
              )))

-- Take a state in which every wallet covers what its open escrows hold, and a caller's row that
-- names the same buyer's wallet as the row in the table. `executeRefund` that returns leaves the
-- sum of all balances as it was and every wallet covering what its open escrows hold; if it
-- raises, all rows about money are as they were.
pub execute_refund-Keeps :
    (env : Env) (id : ℕ) (e : Escrow) (res : Option Resolution) (db : Db)
    → Solvent db
    → IsRowOf id e db
    → Keeps db (execute_refund env id e res db)
unfolding execute_refund refund_tx
execute_refund-Keeps env id e res db s same = Keeps-of_Post _ (
    Post-transaction (refund_tx env id e res) db (SameMoney-refl db) (
      Post-bind (update_many_escrow id _ _) _ db
        (Books-claim id (λ r. status_eq r.status (settled_from res)) (refund_row env.now res) db
          (Books-of_Solvent db s))
        λ claimed d c. after_claim env id e res db claimed d same c))
