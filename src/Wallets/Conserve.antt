-- ===== src/Wallets/Conserve.antt =====
-- `sendFunds`: what its writes do to the books.
use farm_backend.Prelude.{
  ℕ, ◌≤◌, ◌≡◌, refl, ap, sym, ◌∙◌, Bool, true, false, not, Option, none, some, ltb, arith, some_inj,
  subst,
}
use farm_backend.Prelude.Int.{
  ℤ, pos, pos_part, negate, ◌+ℤ◌, ◌-ℤ◌, ◌≤ℤ◌, ltb_ℤ, int_laws, not-ltb_ℤ,
}
use farm_backend.Prelude.Number.{finite}
use farm_backend.Prelude.Text.{Text}
use farm_backend.Prelude.Table.{Table, find, HasKeys, find-find_first}
use farm_backend.Fees.{FeeKey, compute_fee}
use farm_backend.Auth.{verify_device}
use farm_backend.Auth.Harmless.{IsHarmless, verify_pin-IsHarmless, verify_device-IsHarmless}
use farm_backend.Store.{
  Db, Wallet, Transaction, Escrow, pure, adjust_wallet, create_transaction, create_entry,
}
use farm_backend.Store.Rules.{
  Post, returns, Any, Post-mono, Post-bind, Post-then, Post-gets, Post-or_raise, Post-pure,
  Post-raise, Post-raise_if, Post-branch, Post-check,
}
use farm_backend.Store.Balance.{total, Books, HasRoom, Books-adjust}
use farm_backend.Store.Ledger.{
  SameMoney, SameMoney-refl, Books-mono, Books-credit, Books-create_entry, Books-update_transaction,
  shift_zero,
}
use farm_backend.Escrow.{active_wallet, available, platform_wallet}
use farm_backend.Escrow.Env.{Env, Proof, given}
use farm_backend.Escrow.Debt.{Solvent, Books-of_Solvent, Solvent-of_Books, add_nothing}
use farm_backend.Escrow.Settle.{Keeps, Keeps-of_Post}
use farm_backend.Escrow.Checks.{transaction-Keeps, Solvent-SameMoney}
use farm_backend.Wallets.Platform.{credit_found, credit_wallet, credit_admin, credit_platform}
use farm_backend.Wallets.Transfer.{
  SendDto, check_send_device, check_send_pin, authorize_send, recipient_wallet, sent, move_funds,
  merchant_fee_of, send_from, send_tx, send_funds,
}

module _ {sum : ℤ} {debt : ℕ → ℤ} {es : Table Escrow} where
  Books-credit_found :
      (k amount : ℕ) (txn : Option ℕ) (db : Db)
      → Books sum debt es db
      → Post Any (λ _. Books (sum +ℤ pos amount) debt es) (credit_found k amount txn db)
  unfolding credit_found
  Books-credit_found k amount txn db b = Post-gets _ _ db (
      Post-or_raise _ (find k db.wallets) _ db tt λ before _.
        Post-then (adjust_wallet k (pos amount) (pos 0)) _ db
          (Books-credit k (pos amount) db b (omega arith)) λ _ d c. Books-create_entry _ d c)

  Books-credit_wallet :
      (k amount : ℕ) (txn : Option ℕ) (db : Db)
      → Books sum debt es db
      → Post Any (λ _. Books (sum +ℤ pos amount) debt es) (credit_wallet k amount txn db)
  unfolding credit_wallet
  Books-credit_wallet k amount txn db b =
      Post-branch (ltb 0 amount) (credit_found k amount txn) (pure tt) db
        (λ _. Books-credit_found k amount txn db b)
        λ none. Post-pure tt db (Books-mono b (add_nothing sum amount none) (λ k. omega arith))

  Books-credit_admin :
      (amount : ℕ) (txn : Option ℕ) (db : Db)
      → Books sum debt es db
      → Post Any (λ _. Books (sum +ℤ pos amount) debt es) (credit_admin amount txn db)
  unfolding credit_admin
  Books-credit_admin amount txn db b =
      Post-gets platform_wallet _ db (
        Post-or_raise _ (platform_wallet db) _ db tt λ w _. Books-credit_wallet w.0 amount txn db b)

  pub Books-credit_platform :
      (amount : ℕ) (txn : Option ℕ) (db : Db)
      → Books sum debt es db
      → Post Any (λ _. Books (sum +ℤ pos amount) debt es) (credit_platform amount txn db)
  unfolding credit_platform
  Books-credit_platform amount txn db b =
      Post-branch (ltb 0 amount) (credit_admin amount txn) (pure tt) db
        (λ _. Books-credit_admin amount txn db b)
        λ none. Post-pure tt db (Books-mono b (add_nothing sum amount none) (λ k. omega arith))

  pub recorded :
      (k : ℕ) (t : Transaction) (db : Db)
      → Books sum debt es db
      → Post Any (λ _ d. Books sum debt es d × (d.wallets ≡ db.wallets)) (create_transaction k t db)
  unfolding create_transaction total
  recorded k t db b =
      returns (record { has_total = b.has_total; covers = b.covers; same = b.same }, refl)

  -- An adjustment that locks nothing, where there is room for it.
  pub Books-pay :
      (k : ℕ) (by : ℤ) (db : Db)
      → Books sum debt es db
      → HasRoom k by (pos 0) db
      → Post Any (λ _. Books (sum +ℤ by) debt es) (adjust_wallet k by (pos 0) db)
  Books-pay k by db b room =
      Post-mono (adjust_wallet k by (pos 0) db) (Books-adjust k by (pos 0) db b room)
        λ _ d c. Books-mono c refl (shift_zero k debt)

all_paid :
    (sum : ℤ) (amount fee merchant_fee : ℕ)
    → sum
        +ℤ negate (pos amount +ℤ pos fee)
        +ℤ (pos amount -ℤ pos merchant_fee)
        +ℤ pos merchant_fee
        +ℤ pos fee
      ≡ sum
all_paid sum amount fee merchant_fee = omega int_laws

pub room_of_available :
    (k : ℕ) (out : ℤ) {wallet : Wallet} (db d : Db)
    → find k db.wallets ≡ some wallet
    → ltb_ℤ (available wallet) out ≡ false
    → d.wallets ≡ db.wallets
    → HasRoom k (negate out) (pos 0) d
room_of_available k out {wallet} db d found enough same w found' =
    let e : wallet ≡ w = some_inj (sym found ∙ (sym (ap (find k) same) ∙ found')) in
    subst (λ (w : Wallet). w.locked_balance +ℤ pos 0 ≤ℤ w.balance +ℤ negate out) e
      (omega (int_laws, not-ltb_ℤ (available wallet) out enough))

module _ (env : Env) (sender_id sender receiver amount fee merchant_fee : ℕ) (wallet : Wallet) where
  move_funds-Books :
      (db : Db)
      → Solvent db
      → find sender db.wallets ≡ some wallet
      → ltb_ℤ (available wallet) (pos amount +ℤ pos fee) ≡ false
      → merchant_fee ≤ amount
      → Post Any
          (λ _ d. (total d ≡ total db) × Solvent d)
          (move_funds env sender_id sender wallet receiver amount fee merchant_fee db)
  unfolding move_funds
  move_funds-Books db s found enough fair =
      let out = pos amount +ℤ pos fee in
      let received = pos amount -ℤ pos merchant_fee in
      Post-bind (create_transaction env.new_transaction _) _ db
        (recorded env.new_transaction _ db (Books-of_Solvent db s))
        λ txn d₁ (b₁, same). Post-gets _ _ d₁ (
          Post-or_raise _ (find receiver d₁.wallets) _ d₁ tt λ theirs _.
            Post-bind (adjust_wallet sender (negate out) (pos 0)) _ d₁
              (Books-pay sender (negate out) d₁ b₁
                (room_of_available sender out db d₁ found enough same))
              λ from d₂ b₂.
                Post-bind (adjust_wallet receiver received (pos 0)) _ d₂
                  (Books-credit receiver received d₂ b₂ (omega int_laws))
                  λ to d₃ b₃.
                    Post-then (create_entry _) _ d₃ (Books-create_entry _ d₃ b₃) λ _ d₄ b₄.
                      Post-then (create_entry _) _ d₄ (Books-create_entry _ d₄ b₄) λ _ d₅ b₅.
                        Post-then (credit_platform merchant_fee (some txn)) _ d₅
                          (Books-credit_platform merchant_fee (some txn) d₅ b₅)
                          λ _ d₆ b₆.
                            Post-then (credit_platform fee (some txn)) _ d₆
                              (Books-credit_platform fee (some txn) d₆ b₆)
                              λ _ d₇ b₇.
                                Post-then _ _ d₇ (Books-update_transaction txn (sent env.now) d₇ b₇)
                                  λ _ d₈ b₈. Post-pure _ d₈ (
                                    b₈.has_total ∙ all_paid (total db) amount fee merchant_fee,
                                    Solvent-of_Books d₈ b₈,
                                  ))

-- A merchant's fee never exceeds what it is taken of.
abbrev pub IsMerchantFair : Env → Type 0
IsMerchantFair env =
    (amount : ℕ) → compute_fee (env.rule FeeKey.merchant) (finite (pos amount)) 8 ≤ amount

merchant_fee_le :
    (env : Env) (pays : Bool) (amount : ℕ)
    → IsMerchantFair env
    → merchant_fee_of env pays amount ≤ amount
merchant_fee_le env true amount fair = fair amount
merchant_fee_le env false amount fair = omega arith

module _ (env : Env) (today sender_id : ℕ) (merchant_pays : Bool) (fair : IsMerchantFair env) where
  send_tx-Books :
      (receiver amount : ℕ) (db : Db)
      → Solvent db
      → HasKeys db.wallets
      → Post Any
          (λ _ d. (total d ≡ total db) × Solvent d)
          (send_tx env today sender_id merchant_pays receiver amount db)
  unfolding send_tx send_from active_wallet
  send_tx-Books receiver amount db s keys = Post-gets (active_wallet sender_id) _ db (
      Post-or_raise _ (active_wallet sender_id db) _ db tt λ (sender, wallet) mine.
        Post-check _ _ _ db tt λ _. Post-check _ _ _ db tt λ _. Post-gets _ _ db (
          Post-check _ _ _ db tt λ _. Post-check _ _ _ db tt λ _. Post-check _ _ _ db tt λ enough.
            Post-gets _ _ db (
              Post-check _ _ _ db tt λ _.
                move_funds-Books env sender_id sender receiver amount _ _ wallet db s
                  (find-find_first _ db.wallets keys mine) enough
                  (merchant_fee_le env merchant_pays amount fair))))

check_send_device-IsHarmless :
    (env : Env) (k : ℕ) (o : Option Text) {db : Db} (d : Db)
    → SameMoney db d
    → IsHarmless db (check_send_device env k o d)
unfolding check_send_device
check_send_device-IsHarmless env k none d h = Post-raise _ d h
check_send_device-IsHarmless env k (some f) d h =
    Post-bind (verify_device env.sha256 env.now k f) _ d
      (verify_device-IsHarmless env.sha256 env.now k f d h)
      λ trusted d' h'. Post-raise_if (not trusted) _ d' h' h'

check_send_pin-IsHarmless :
    (env : Env) (k : ℕ) (o : Option Text) {db : Db} (d : Db)
    → SameMoney db d
    → IsHarmless db (check_send_pin env k o d)
unfolding check_send_pin
check_send_pin-IsHarmless env k none d h = Post-raise _ d h
check_send_pin-IsHarmless env k (some pin) d h = verify_pin-IsHarmless env.bcrypt k pin d h

authorize_send-IsHarmless :
    (env : Env) (k : ℕ) (p : Proof) {db : Db} (d : Db)
    → SameMoney db d
    → IsHarmless db (authorize_send env k p d)
unfolding authorize_send
authorize_send-IsHarmless env k p d h =
    Post-branch p.biometric_auth _ _ d
      (λ _. check_send_device-IsHarmless env k (given p.device_fingerprint) d h)
      λ _. check_send_pin-IsHarmless env k (given p.pin) d h

-- Take a state in which every wallet covers what its open escrows hold and no two wallets have the
-- same id, and a merchant fee of at most the amount. `sendFunds` that returns leaves the sum of
-- all balances as it was, fees included, and every wallet covered, so that it does not spend what
-- escrows hold; if it raises, all rows about money are as they were.
pub send_funds-Keeps :
    (env : Env) (today sender_id : ℕ) (merchant_pays : Bool) (dto : SendDto) (db : Db)
    → IsMerchantFair env
    → Solvent db
    → HasKeys db.wallets
    → Keeps db (send_funds env today sender_id merchant_pays dto db)
unfolding send_funds
send_funds-Keeps env today sender_id merchant_pays dto db fair s keys =
    let h = SameMoney-refl db in
    Keeps-of_Post _ (
      Post-check _ _ _ db h λ _.
        Post-then (authorize_send env sender_id dto.proof) _ db
          (authorize_send-IsHarmless env sender_id dto.proof db h)
          λ _ d h'. Post-gets _ _ d (
            Post-or_raise _ (recipient_wallet dto.recipient_identifier d) _ d h' λ (receiver, _) _.
              transaction-Keeps
                (send_tx env today sender_id merchant_pays receiver (pos_part dto.amount)) d h'
                (send_tx-Books env today sender_id merchant_pays fair receiver (pos_part dto.amount)
                  d (Solvent-SameMoney s h') (rw h'.wallets keys))))
