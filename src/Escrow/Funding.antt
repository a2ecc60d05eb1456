-- ===== src/Escrow/Funding.antt =====
-- The transaction of `create`: what its writes do to the books.
use farm_backend.Prelude.{
  ℕ, ◌+◌, ◌-◌, ◌≡◌, refl, ap, sym, ◌∙◌, false, none, some, ◌==◌, if◌then◌else◌, arith, inl, inr,
  Bool-cases, some_inj, subst,
}
use farm_backend.Prelude.Int.{ℤ, pos, negate, ◌+ℤ◌, ◌≤ℤ◌, ltb_ℤ, int_laws, parts_of_eq, not-ltb_ℤ}
use farm_backend.Prelude.Table.{Table, find, modify, insert, find-insert_self}
use farm_backend.Store.{
  Db, Wallet, Escrow, adjust_wallet, update_escrow, create_escrow, create_transaction,
}
use farm_backend.Store.Rules.{
  Post, returns, Any, Post-then, Post-gets, Post-or_raise, Post-pure, Post-check,
}
use farm_backend.Store.Balance.{total, Books, shift, HasRoom, Books-adjust}
use farm_backend.Store.Ledger.{Books-mono, Books-update_escrow, Books-create_transaction}
use farm_backend.Escrow.Env.{Env}
use farm_backend.Escrow.Money.{remaining_amount}
use farm_backend.Escrow.Create.{Prepared, available, new_contract, funded, fund_writes, create_tx}
use farm_backend.Escrow.Debt.{
  held, owed, Solvent, Books-of_Solvent, Solvent-of_Books, owed-modify, owed-insert,
  Books-credit_superadmin,
}

subtract_none : (n : ℕ) → n - 0 ≡ n
subtract_none n = omega arith

module _ (env : Env) (p : Prepared) where
  abbrev contract : Escrow
  contract = new_contract env p

  held-new : (k : ℕ) → held k contract ≡ pos 0
  unfolding new_contract
  held-new k = refl

  held-funded :
      (k : ℕ)
      → held k (funded env.now contract) ≡ (if p.buyer_wallet == k then pos p.amount else pos 0)
  unfolding new_contract remaining_amount
  held-funded k = ground (arith, subtract_none p.amount)

  -- What is owed after the new contract is funded.
  owed-funded :
      (es : Table Escrow) (k : ℕ)
      → find env.new_escrow es ≡ none
      → owed (modify env.new_escrow (funded env.now) (insert env.new_escrow contract es)) k
        ≤ℤ shift p.buyer_wallet (pos p.amount) (owed es) k
  owed-funded es k fresh =
      let id = env.new_escrow in
      let moved = parts_of_eq (
        owed-modify id (funded env.now) (insert id contract es) k
          (find-insert_self id contract es fresh)) in
      let added = parts_of_eq (owed-insert id contract es k) in
      let none_yet = parts_of_eq (held-new k) in
      elim (Bool-cases (p.buyer_wallet == k)) [
        | inl same ↦
            let locks = rw same at (held-funded k) in
            rw same (omega (int_laws, moved, added, none_yet, parts_of_eq locks))
        | inr other ↦
            let locks = rw other at (held-funded k) in
            rw other (omega (int_laws, moved, added, none_yet, parts_of_eq locks))
      ]

  created :
      {sum : ℤ} {debt : ℕ → ℤ} {es : Table Escrow} (k : ℕ) (e : Escrow) (db : Db)
      → Books sum debt es db
      → Post Any
          (λ _ d. Books sum debt (insert k e es) d × (d.wallets ≡ db.wallets))
          (create_escrow k e db)
  unfolding create_escrow total
  created k e db b =
      returns
        (record { has_total = b.has_total; covers = b.covers; same = ap (insert k e) b.same }, refl)

  -- The check of the funds gives the room that the two changes of the wallet need.
  room_of_funds :
      {wallet : Wallet} (db d : Db)
      → find p.buyer_wallet db.wallets ≡ some wallet
      → ltb_ℤ (available wallet) (pos (p.amount + p.fee)) ≡ false
      → d.wallets ≡ db.wallets
      → HasRoom p.buyer_wallet (negate (pos p.fee)) (pos p.amount) d
  room_of_funds {wallet} db d found enough same w found' =
      let e : wallet ≡ w = some_inj (sym found ∙ (sym (ap (find p.buyer_wallet) same) ∙ found')) in
      subst (λ (w : Wallet). w.locked_balance +ℤ pos p.amount ≤ℤ w.balance +ℤ negate (pos p.fee)) e
        (omega (int_laws, not-ltb_ℤ (available wallet) (pos (p.amount + p.fee)) enough))

  paid_fee : (sum : ℤ) → sum +ℤ negate (pos p.fee) +ℤ pos p.fee ≡ sum
  paid_fee sum = omega int_laws

  fund_writes-Books :
      {wallet : Wallet} (db : Db)
      → Solvent db
      → find env.new_escrow db.escrows ≡ none
      → find p.buyer_wallet db.wallets ≡ some wallet
      → ltb_ℤ (available wallet) (pos (p.amount + p.fee)) ≡ false
      → Post Any (λ _ d. (total d ≡ total db) × Solvent d) (fund_writes env p db)
  unfolding fund_writes
  fund_writes-Books db s fresh found enough =
      let less = negate (pos p.fee) in
      Post-then (create_escrow env.new_escrow _) _ db
        (created env.new_escrow contract db (Books-of_Solvent db s))
        λ _ d₁ (b₁, same).
          Post-then (adjust_wallet p.buyer_wallet less (pos p.amount)) _ d₁
            (Books-adjust p.buyer_wallet less (pos p.amount) d₁ b₁
              (room_of_funds db d₁ found enough same))
            λ _ d₂ b₂.
              Post-then (update_escrow env.new_escrow (funded env.now)) _ d₂
                (Books-update_escrow env.new_escrow (funded env.now) d₂ b₂)
                λ _ d₃ b₃.
                  Post-then (create_transaction env.new_transaction _) _ d₃
                    (Books-create_transaction env.new_transaction _ d₃ b₃)
                    λ _ d₄ b₄. Post-then _ _ d₄ (Books-credit_superadmin p.fee d₄ b₄) λ _ d₅ b₅.
                      Post-pure env.new_escrow d₅ (
                        b₅.has_total ∙ paid_fee (total db),
                        Solvent-of_Books d₅
                            (Books-mono b₅ refl (λ k. owed-funded db.escrows k fresh)),
                      )

  -- The transaction of `create`, in any state of the tables: it does not rely on the checks that
  -- ran before it.
  pub create_tx-Books :
      (db : Db)
      → Solvent db
      → find env.new_escrow db.escrows ≡ none
      → Post Any (λ _ d. (total d ≡ total db) × Solvent d) (create_tx env p db)
  unfolding create_tx
  create_tx-Books db s fresh =
      Post-gets (λ db. find p.buyer_wallet db.wallets) _ db
        (Post-or_raise _ (find p.buyer_wallet db.wallets) _ db tt λ wallet found.
          Post-check (ltb_ℤ (available wallet) (pos (p.amount + p.fee))) _ _ db tt
            λ enough. fund_writes-Books db s fresh found enough)
