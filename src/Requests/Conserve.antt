-- ===== src/Requests/Conserve.antt =====
-- `acceptAndTransfer`: what its writes do to the books.
use farm_backend.Prelude.{
  ℕ, ◌≡◌, refl, sym, ⊤, ◌∙◌, false, Option, none, some, arith, some_inj, subst,
}
use farm_backend.Prelude.Int.{pos, negate, ◌+ℤ◌, ltb_ℤ, int_laws, parts_of_eq}
use farm_backend.Prelude.Table.{find}
use farm_backend.Prelude.Text.{Text}
use farm_backend.Auth.{verify_pin}
use farm_backend.Auth.Harmless.{verify_pin-IsHarmless}
use farm_backend.Store.{
  Db, Wallet, MoneyRequest, pure, adjust_wallet, create_transaction, create_entry,
  update_transaction, update_in, transaction,
}
use farm_backend.Store.Rules.{
  Post, Any, Post-mono, Post-bind, Post-then, Post-gets, Post-or_raise, Post-pure, Post-raise,
  Post-branch, Post-check, Post-transaction, Post-nothing,
}
use farm_backend.Store.Balance.{total}
use farm_backend.Store.Ledger.{
  SameMoney, SameMoney-refl, Books-credit, Books-create_entry, Books-update_transaction,
}
use farm_backend.Store.Side.{Books-update_in}
use farm_backend.Escrow.{available}
use farm_backend.Escrow.Env.{Env, Proof, authorize}
use farm_backend.Escrow.Debt.{Solvent, Books-of_Solvent, Solvent-of_Books}
use farm_backend.Escrow.Checks.{Solvent-SameMoney, total-SameMoney, authorize-IsHarmless}
use farm_backend.Wallets.{sent, transfer_fee_of}
use farm_backend.Wallets.Conserve.{recorded, Books-pay, room_of_available}
use farm_backend.Requests.Service.{Service, transfer_service, payment_service}
use farm_backend.Requests.Accept.{
  Accepted, with_id, wallet_at, lapse, settle_request, pay_request, is_past, refuse_expired,
  check_expiry, accept_open, accept_tx, accept_transfer, accept_payment,
}

-- The wallets lose the fee, and each still covers what is locked in it.
pub record LosesFee (db : Db) (a : Accepted) (d : Db) : Type 0 where
  pub loses : total d +ℤ pos a.fee ≡ total db
  pub solvent : Solvent d

found_at :
    (o : Option ℕ) (db : Db) (k : ℕ) (w : Wallet)
    → wallet_at o db ≡ some (k, w)
    → find k db.wallets ≡ some w
unfolding wallet_at
found_at none db k w e = absurd (cc)
found_at (some j) db k w e = go (find j db.wallets) refl e
  where
    go :
        (x : Option Wallet)
        → find j db.wallets ≡ x
        → with_id j x ≡ some (k, w)
        → find k db.wallets ≡ some w
    go none at e = absurd (cc)
    go (some v) at e = subst (λ p. find p.0 db.wallets ≡ some p.1) (some_inj e) at

module _ (s : Service) (env : Env) where
  pay_request-Books :
      (id : ℕ) (r : MoneyRequest) (payer requester : ℕ × Wallet) (fee : ℕ) (db : Db)
      → Solvent db
      → find payer.0 db.wallets ≡ some payer.1
      → ltb_ℤ (available payer.1) (pos r.amount +ℤ pos fee) ≡ false
      → Post Any (LosesFee db) (pay_request s env id r payer requester fee db)
  unfolding pay_request
  pay_request-Books id r payer requester fee db sound found enough =
      let out = pos r.amount +ℤ pos fee in
      Post-bind (create_transaction env.new_transaction _) _ db
        (recorded env.new_transaction _ db (Books-of_Solvent db sound))
        λ txn d₁ (b₁, same).
          Post-bind (adjust_wallet payer.0 (negate out) (pos 0)) _ d₁
            (Books-pay payer.0 (negate out) d₁ b₁
              (room_of_available payer.0 out db d₁ found enough same))
            λ from d₂ b₂.
              Post-bind (adjust_wallet requester.0 (pos r.amount) (pos 0)) _ d₂
                (Books-credit requester.0 (pos r.amount) d₂ b₂ (omega arith))
                λ to d₃ b₃. Post-then (create_entry _) _ d₃ (Books-create_entry _ d₃ b₃) λ _ d₄ b₄.
                  Post-then (create_entry _) _ d₄ (Books-create_entry _ d₄ b₄) λ _ d₅ b₅.
                    Post-then (update_transaction txn _) _ d₅
                      (Books-update_transaction txn (sent env.now) d₅ b₅)
                      λ _ d₆ b₆.
                        Post-then (update_in s.rows id _) _ d₆
                          (Books-update_in s.rows id (settle_request txn env.now) d₆ b₆)
                          λ _ d₇ b₇. Post-pure _ d₇ (record {
                            loses = omega (int_laws, parts_of_eq b₇.has_total);
                            solvent = Solvent-of_Books d₇ b₇;
                          })

  refuse_expired-raises :
      {Q : ⊤ → Db → Type 0} (id : ℕ) (db : Db) → Post Any Q (refuse_expired s env id db)
  unfolding refuse_expired
  refuse_expired-raises id db =
      Post-then (update_in s.rows id lapse) _ db (Post-nothing (update_in s.rows id lapse db))
        λ _ d _. Post-raise _ d tt

  -- The check lets a request through only in its time, and then it has written nothing.
  pub check_expiry-returns :
      (id : ℕ) (r : MoneyRequest) (db : Db)
      → Post Any
          (λ _ d. (d ≡ db) × (is_past env.now r.expires_at ≡ false))
          (check_expiry s env id r db)
  unfolding check_expiry
  check_expiry-returns id r db =
      Post-branch (is_past env.now r.expires_at) (refuse_expired s env id) (pure tt) db
        (λ _. refuse_expired-raises id db) λ timely. Post-pure tt db (refl, timely)

  accept_tx-Books :
      (user_id id : ℕ) (db : Db)
      → Solvent db
      → Post Any (LosesFee db) (accept_tx s env user_id id db)
  unfolding accept_tx accept_open
  accept_tx-Books user_id id db sound = Post-gets _ _ db (
      Post-or_raise _ _ _ db tt λ r _. Post-check _ _ _ db tt λ _. Post-check _ _ _ db tt λ _.
        Post-then (check_expiry s env id r) _ db (check_expiry-returns id r db) λ _ d (same, _).
          Post-gets _ _ d (
            Post-gets _ _ d (
              Post-or_raise _ (wallet_at r.payer_wallet_id d) _ d tt λ payer found.
                Post-check _ _ _ d tt λ _. Post-check _ _ _ d tt λ enough.
                  Post-or_raise _ (wallet_at r.requester_wallet_id d) _ d tt λ requester _.
                    subst
                      (λ x.
                        Post Any (LosesFee x)
                          (pay_request s env id r payer requester (transfer_fee_of env r.amount) d))
                      same
                      (pay_request-Books id r payer requester _ d (subst Solvent (sym same) sound)
                        (found_at r.payer_wallet_id d payer.0 payer.1 found) enough))))

  accept_tx-LosesFee :
      (user_id id : ℕ) {db : Db} (d : Db)
      → Solvent db
      → SameMoney db d
      → Post (SameMoney db) (LosesFee db) (transaction (accept_tx s env user_id id) d)
  accept_tx-LosesFee user_id id d sound h = Post-transaction _ d h (
      Post-mono (accept_tx s env user_id id d)
        (accept_tx-Books user_id id d (Solvent-SameMoney sound h))
        λ a d' l. record { loses = l.loses ∙ total-SameMoney h; solvent = l.solvent })

-- Take a state in which every wallet covers what its open escrows hold. When `acceptAndTransfer`
-- of a transfer request returns, all wallets together hold less than before by just the fee that
-- it returns, and every wallet still covers its escrows, so that the payer has not spent what they
-- hold. When it raises, all rows about money are as they were.
pub accept_transfer-LosesFee :
    (env : Env) (user_id id : ℕ) (proof : Proof) (db : Db)
    → Solvent db
    → Post (SameMoney db) (LosesFee db) (accept_transfer env user_id id proof db)
unfolding accept_transfer
accept_transfer-LosesFee env user_id id proof db sound =
    Post-then (authorize env user_id proof) _ db
      (authorize-IsHarmless env user_id proof db (SameMoney-refl db))
      λ _ d h. accept_tx-LosesFee transfer_service env user_id id d sound h

pub accept_payment-LosesFee :
    (env : Env) (user_id id : ℕ) (pin : Text) (db : Db)
    → Solvent db
    → Post (SameMoney db) (LosesFee db) (accept_payment env user_id id pin db)
unfolding accept_payment
accept_payment-LosesFee env user_id id pin db sound =
    Post-then (verify_pin env.bcrypt user_id pin) _ db
      (verify_pin-IsHarmless env.bcrypt user_id pin db (SameMoney-refl db))
      λ _ d h. accept_tx-LosesFee payment_service env user_id id d sound h
