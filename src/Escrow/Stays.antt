-- ===== src/Escrow/Stays.antt =====
-- Releases, milestones and refunds, and the escrows that are settled already.
use farm_backend.Prelude.{
  ℕ, ◌≡◌, refl, Bool, true, false, not, Option, none, some, ◌==◌, arith, ◌&&◌,
}
use farm_backend.Prelude.Number.{JsNumber}
use farm_backend.Prelude.Text.{Text}
use farm_backend.Prelude.Table.{find}
use farm_backend.Auth.{verify_pin}
use farm_backend.Auth.Harmless.{verify_pin-IsHarmless}
use farm_backend.Store.{
  Db, Escrow, active, completed, Result, ok, err, bad_request, unauthorized, Action, pure,
  adjust_wallet, update_escrow, create_transaction, update_many_escrow,
}
use farm_backend.Store.Rules.{
  returns, raises, Post-bind, Post-then, Post-gets, Post-or_raise, Post-pure, Post-raise,
  Post-branch, Post-check,
}
use farm_backend.Store.Ledger.{SameMoney-refl}
use farm_backend.Escrow.Env.{Env, Proof, authorize}
use farm_backend.Escrow.Money.{remaining_amount, is_id}
use farm_backend.Escrow.Release.{
  Resolution, already_released, released_to_seller, status_eq, settled_from, not_open, release_row,
  fresh_or, pay_seller, release_locked, release_tx, execute_release, settle_release, attempt,
  cannot_release, release_open, release,
}
use farm_backend.Escrow.Partial.{
  can_claim, claimed_part, finished, complete_if_paid, over_claimed, settle_part, partial_tx,
  release_partial, to_cents,
}
use farm_backend.Escrow.Refund.{
  Winner, buyer, seller, refund_row, refund_tx, execute_refund, settle, resolve_dispute,
}
use farm_backend.Escrow.Checks.{authorize-IsHarmless}
use farm_backend.Escrow.Handlers.{read-Post}
use farm_backend.Escrow.Settled.{
  is_final, IsSettled, Stays, Stays-of_harmless, transaction-Stays, adjust_wallet-Stays,
  create_transaction-Stays, update_escrow-Stays, update_many-Stays, pay_seller-Stays,
}

-- What a settlement starts from is not settled.
pub opens_settled_from :
    (res : Option Resolution) (r : Escrow)
    → status_eq r.status (settled_from res) ≡ true
    → is_final r.status ≡ false
unfolding status_eq
opens_settled_from none r h = ground arith
opens_settled_from (some _) r h = ground arith

pub opens_active : (r : Escrow) → status_eq r.status active ≡ true → is_final r.status ≡ false
unfolding status_eq
opens_active r h = ground arith

pub opens_can_claim : (part : ℕ) (r : Escrow) → can_claim part r ≡ true → is_final r.status ≡ false
unfolding status_eq
opens_can_claim part r h = ground arith

module _ {id : ℕ} (env : Env) (k : ℕ) where
  pub release_locked-Stays :
      (e : Escrow) (bw sw amount : ℕ) (db : Db)
      → IsSettled id db
      → Stays id (release_locked env k e bw sw amount db)
  unfolding release_locked
  release_locked-Stays e bw sw amount db s =
      Post-branch (amount == 0) (pure 0) _ db (λ _. Post-pure 0 db s)
        λ _.
          Post-then (pay_seller env k e bw sw amount _ none) _ db
            (pay_seller-Stays env k e bw sw amount _ none db s) λ _ d s₁. Post-pure amount d s₁

  release_tx-Stays :
      (e : Escrow) (res : Option Resolution) (bw sw : ℕ) (db : Db)
      → IsSettled id db
      → Stays id (release_tx env k e res bw sw db)
  unfolding release_tx
  release_tx-Stays e res bw sw db s =
      Post-bind (update_many_escrow k _ _) _ db
        (update_many-Stays k _ (release_row env.now res) db (opens_settled_from res) s)
        λ claimed d s₁. Post-check (not claimed) (not_open res) _ d s₁ λ _.
          Post-gets (λ d. find k d.escrows) _ d
            (release_locked-Stays e bw sw (remaining_amount (fresh_or e (find k d.escrows))) d s₁)

  pub execute_release-Stays :
      (e : Escrow) (res : Option Resolution) (db : Db)
      → IsSettled id db
      → Stays id (execute_release env k e res db)
  unfolding execute_release
  execute_release-Stays e res db s = Post-or_raise _ e.buyer_wallet_id _ db s λ bw _.
      Post-or_raise _ e.seller_wallet_id _ db s λ sw _. Post-check (e.amount == 0) _ _ db s λ _.
        transaction-Stays (release_tx env k e res bw sw) db s (release_tx-Stays e res bw sw db s)

  pub execute_refund-Stays :
      (e : Escrow) (res : Option Resolution) (db : Db)
      → IsSettled id db
      → Stays id (execute_refund env k e res db)
  unfolding execute_refund refund_tx
  execute_refund-Stays e res db s = transaction-Stays (refund_tx env k e res) db s (
      Post-bind (update_many_escrow k _ _) _ db
        (update_many-Stays k _ (refund_row env.now res) db (opens_settled_from res) s)
        λ claimed d s₁. Post-check (not claimed) (not_open res) _ d s₁ λ _.
          Post-gets (λ d. find k d.escrows) _ d
            (Post-or_raise _ e.buyer_wallet_id _ d s₁ λ bw _.
              Post-then (adjust_wallet bw _ _) _ d (adjust_wallet-Stays bw _ _ d s₁) λ _ d₁ s₂.
                Post-then (create_transaction env.new_transaction _) _ d₁
                  (create_transaction-Stays env.new_transaction _ d₁ s₂)
                  λ _ d₂ s₃. Post-pure _ d₂ s₃))

  complete_if_paid-Stays :
      (paid : Bool) (db : Db) → IsSettled id db → Stays id (complete_if_paid env.now k paid db)
  unfolding complete_if_paid
  complete_if_paid-Stays false db s = Post-pure tt db s
  complete_if_paid-Stays true db s =
      Post-then (update_escrow k (finished env.now)) _ db
        (update_escrow-Stays k (finished env.now) db (λ _ r _. refl) s) λ _ d s₁. Post-pure tt d s₁

  partial_tx-Stays :
      (e : Escrow) (bw sw part : ℕ) (label : Text) (db : Db)
      → IsSettled id db
      → Stays id (partial_tx env k e bw sw part label db)
  unfolding partial_tx settle_part
  partial_tx-Stays e bw sw part label db s =
      Post-bind (update_many_escrow k (can_claim part) (claimed_part part)) _ db
        (update_many-Stays k (can_claim part) (claimed_part part) db (opens_can_claim part) s)
        λ claimed d s₁. Post-check (not claimed) over_claimed _ d s₁ λ _.
          Post-gets (λ d. find k d.escrows) _ d
            (Post-then (complete_if_paid env.now k _) _ d (complete_if_paid-Stays _ d s₁) λ _ d₁ s₂.
              Post-then (pay_seller env k e bw sw part _ _) _ d₁
                (pay_seller-Stays env k e bw sw part _ _ d₁ s₂) λ _ d₂ s₃. Post-pure _ d₂ s₃)

  pub release_partial-Stays :
      (buyer_id : ℕ) (amount : JsNumber) (pin label : Text) (db : Db)
      → IsSettled id db
      → Stays id (release_partial env k buyer_id amount pin label db)
  unfolding release_partial
  release_partial-Stays buyer_id amount pin label db s = Post-check _ _ _ db s λ _.
      read-Post k _ db s λ e _. Post-check _ _ _ db s λ _. Post-check _ _ _ db s λ _.
        Post-or_raise _ e.buyer_wallet_id _ db s λ bw _.
          Post-or_raise _ e.seller_wallet_id _ db s λ sw _.
            Post-then (verify_pin env.bcrypt buyer_id pin) _ db
              (Stays-of_harmless _ s
                (verify_pin-IsHarmless env.bcrypt buyer_id pin db (SameMoney-refl db)))
              λ _ d s₁.
                transaction-Stays (partial_tx env k e bw sw (to_cents amount) label) d s₁
                  (partial_tx-Stays e bw sw (to_cents amount) label d s₁)

  settle_release-Stays :
      (buyer_id : ℕ) (r : Result ℕ) (db : Db)
      → IsSettled id db
      → Stays id (settle_release k buyer_id r db)
  unfolding settle_release
  settle_release-Stays buyer_id (ok n) db s = Post-pure released_to_seller db s
  settle_release-Stays buyer_id (err (bad_request m)) db s = read-Post k _ db s λ e _.
      Post-branch (is_id buyer_id e.buyer_id && status_eq e.status completed) _ _ db
        (λ _. Post-pure already_released db s) λ _. Post-raise (bad_request m) db s
  settle_release-Stays buyer_id (err (unauthorized m)) db s = Post-raise (unauthorized m) db s
  settle_release-Stays buyer_id (err e) db s = Post-raise e db s

  attempt-Stays : {A : Type 0} (m : Action A) (db : Db) → Stays id (m db) → Stays id (attempt m db)
  unfolding attempt
  attempt-Stays {A} m db p = returns (state (m db) p)
    where
      state : (r : Result A × Db) → Stays id r → IsSettled id r.1
      state r (returns s) = s
      state r (raises s) = s

  pub release-Stays :
      (buyer_id : ℕ) (proof : Proof) (db : Db)
      → IsSettled id db
      → Stays id (release env k buyer_id proof db)
  unfolding release release_open
  release-Stays buyer_id proof db s = read-Post k _ db s λ e _. Post-check _ _ _ db s λ _.
      Post-branch (status_eq e.status completed) _ _ db (λ _. Post-pure already_released db s)
        λ _. Post-check _ cannot_release _ db s λ _.
          Post-then (authorize env buyer_id proof) _ db
            (Stays-of_harmless _ s (authorize-IsHarmless env buyer_id proof db (SameMoney-refl db)))
            λ _ d s₁.
              Post-bind (attempt (execute_release env k e none)) _ d
                (attempt-Stays (execute_release env k e none) d (execute_release-Stays e none d s₁))
                λ r d' s₂. settle_release-Stays buyer_id r d' s₂

  settle-Stays :
      (e : Escrow) (r : Resolution) (w : Winner) (db : Db)
      → IsSettled id db
      → Stays id (settle env k e r w db)
  unfolding settle
  settle-Stays e r seller db s = execute_release-Stays e (some r) db s
  settle-Stays e r buyer db s = execute_refund-Stays e (some r) db s

  pub resolve_dispute-Stays :
      (admin_id : ℕ) (w : Winner) (note : Text) (db : Db)
      → IsSettled id db
      → Stays id (resolve_dispute env k admin_id w note db)
  unfolding resolve_dispute
  resolve_dispute-Stays admin_id w note db s = Post-gets _ _ db (
      Post-or_raise _ (find k db.escrows) _ db s
        λ e _. Post-check _ _ _ db s λ _. settle-Stays e _ w db s)
