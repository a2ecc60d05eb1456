-- ===== src/Escrow/Checks.antt =====
-- The checks of `create` before its transaction, and the handler as a whole.
use farm_backend.Prelude.{ℕ, ◌≡◌, ◌∙◌, not, Option, none, some, ◌==◌, ltb, length}
use farm_backend.Prelude.Text.{Text, trim, is_empty}
use farm_backend.Prelude.Table.{find}
use farm_backend.Auth.{verify_device}
use farm_backend.Auth.Harmless.{IsHarmless, verify_pin-IsHarmless, verify_device-IsHarmless}
use farm_backend.Store.{Db, Action, transaction}
use farm_backend.Store.Rules.{
  Post, Any, Post-gets, Post-or_raise, Post-check, Post-then, Post-bind, Post-raise, Post-pure,
  Post-branch, Post-raise_if, Post-transaction, Post-mono,
}
use farm_backend.Store.Balance.{total}
use farm_backend.Store.Ledger.{SameMoney, SameMoney-refl}
use farm_backend.Escrow.Env.{Env, Proof, given, check_device, check_pin, authorize}
use farm_backend.Escrow.Money.{active_wallet}
use farm_backend.Escrow.Create.{
  CreateDto, not_positive, bad_days, check_dto, seller_of, wallet_of, create_checks, create_tx,
  create,
}
use farm_backend.Escrow.Debt.{Solvent}
use farm_backend.Escrow.Settle.{Keeps, Keeps-of_Post}
use farm_backend.Escrow.Funding.{create_tx-Books}

check_device-IsHarmless :
    (env : Env) (k : ℕ) (o : Option Text) {db : Db} (d : Db)
    → SameMoney db d
    → IsHarmless db (check_device env k o d)
unfolding check_device
check_device-IsHarmless env k none d h = Post-raise _ d h
check_device-IsHarmless env k (some f) d h =
    Post-bind (verify_device env.sha256 env.now k f) _ d
      (verify_device-IsHarmless env.sha256 env.now k f d h)
      λ trusted d' h'. Post-raise_if (not trusted) _ d' h' h'

check_pin-IsHarmless :
    (env : Env) (k : ℕ) (o : Option Text) {db : Db} (d : Db)
    → SameMoney db d
    → IsHarmless db (check_pin env k o d)
unfolding check_pin
check_pin-IsHarmless env k none d h = Post-raise _ d h
check_pin-IsHarmless env k (some pin) d h = verify_pin-IsHarmless env.bcrypt k pin d h

pub authorize-IsHarmless :
    (env : Env) (k : ℕ) (p : Proof) {db : Db} (d : Db)
    → SameMoney db d
    → IsHarmless db (authorize env k p d)
unfolding authorize
authorize-IsHarmless env k p d h =
    Post-branch p.biometric_auth _ _ d
      (λ _. check_device-IsHarmless env k (given p.device_fingerprint) d h)
      λ _. check_pin-IsHarmless env k (given p.pin) d h

check_dto-IsHarmless :
    (dto : CreateDto) {db : Db} (d : Db) → SameMoney db d → IsHarmless db (check_dto dto d)
unfolding check_dto
check_dto-IsHarmless dto d h = Post-check (not_positive dto.amount) _ _ d h λ _.
    Post-check (is_empty (trim dto.seller_identifier)) _ _ d h λ _.
      Post-check (is_empty (trim dto.title)) _ _ d h λ _.
        Post-check (ltb 255 (length (trim dto.title))) _ _ d h
          λ _. Post-raise_if (bad_days dto.auto_release_days) _ d h h

module _ (env : Env) (buyer_id : ℕ) (dto : CreateDto) where
  -- From the lookup of the buyer on, nothing is written.
  pub create_checks-IsHarmless : (db : Db) → IsHarmless db (create_checks env buyer_id dto db)
  unfolding create_checks
  create_checks-IsHarmless db =
      Post-then (check_dto dto) _ db (check_dto-IsHarmless dto db (SameMoney-refl db)) λ _ d h.
        Post-then (authorize env buyer_id dto.proof) _ d
          (authorize-IsHarmless env buyer_id dto.proof d h)
          λ _ d h. Post-gets _ _ d (
            Post-or_raise _ (wallet_of buyer_id (find buyer_id d.users) d) _ d h λ buyer _.
              Post-check buyer.1.is_frozen _ _ d h λ _. Post-gets _ _ d (
                Post-or_raise _ (seller_of (trim dto.seller_identifier) d) _ d h λ seller _.
                  Post-gets _ _ d (
                    Post-or_raise _ (active_wallet seller.0 d) _ d h λ wallet _.
                      Post-check (seller.0 == buyer_id) _ _ d h λ _.
                        Post-gets _ _ d
                          (Post-check _ _ _ d h λ _. Post-check _ _ _ d h λ _. Post-pure _ d h))))

pub Solvent-SameMoney : {db d : Db} → Solvent db → SameMoney db d → Solvent d
Solvent-SameMoney s h = record { covered = rw (h.wallets, h.escrows) s.covered }

pub total-SameMoney : {db d : Db} → SameMoney db d → total d ≡ total db
unfolding total
total-SameMoney h = rw h.wallets

-- A transaction that keeps the books, run after checks that wrote nothing about money.
pub transaction-Keeps :
    {A : Type 0} (m : Action A) {db : Db} (d : Db)
    → SameMoney db d
    → Post Any (λ _ d'. (total d' ≡ total d) × Solvent d') (m d)
    → Post {A = A} (SameMoney db) (λ _ d'. (total d' ≡ total db) × Solvent d') (transaction m d)
transaction-Keeps m d h p =
    Post-transaction m d h (Post-mono (m d) p λ _ d' k. (k.0 ∙ total-SameMoney h, k.1))

-- Take a state in which every wallet covers what its open escrows hold, and an unused id for the
-- new contract. `create` that returns leaves the sum of all balances as it was, its fee included,
-- and every wallet covering what its open escrows, the new one too, hold; if it raises, all rows
-- about money are as they were.
pub create-Keeps :
    (env : Env) (buyer_id : ℕ) (dto : CreateDto) (db : Db)
    → Solvent db
    → find env.new_escrow db.escrows ≡ none
    → Keeps db (create env buyer_id dto db)
unfolding create
create-Keeps env buyer_id dto db s fresh = Keeps-of_Post _ (
    Post-bind (create_checks env buyer_id dto) _ db (create_checks-IsHarmless env buyer_id dto db)
      λ p d h.
        transaction-Keeps (create_tx env p) d h
          (create_tx-Books env p d (Solvent-SameMoney s h) (rw h.escrows fresh)))
