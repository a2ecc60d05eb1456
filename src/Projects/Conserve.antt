-- ===== src/Projects/Conserve.antt =====
-- What a loss pays to the investors comes out of the platform's wallet.
use farm_backend.Prelude.{ℕ, suc, ◌+◌, ◌≡◌, ◌∙◌, refl, true, List, [], ◌∷◌, ◌==◌, ==_iff}
use farm_backend.Prelude.Int.{ℤ, pos, negate, ◌+ℤ◌, int_laws}
use farm_backend.Prelude.Text.{Text}
use farm_backend.Prelude.Table.{find}
use farm_backend.Store.{
  Db, Investment, adjust_wallet, create_transaction, create_entry, claim_in, pure,
}
use farm_backend.Store.Rules.{
  Post, returns, Any, Post-bind, Post-then, Post-gets, Post-or_raise, Post-pure, Post-branch,
  Post-check, Post-transaction, forget,
}
use farm_backend.Store.Balance.{total}
use farm_backend.Store.Apart.{Apart-claim_in}
use farm_backend.Escrow.Env.{Env}
use farm_backend.Escrow.{platform_wallet}
use farm_backend.AgentPayments.{payer_wallet}
use farm_backend.AgentPayments.Returned.{Holds, Holds-adjust_wallet}
use farm_backend.Projects.Reserve.{
  project_rows, has_reserve, take_refund, debit_platform, draw_reserve, pay_from_reserve,
}
use farm_backend.Projects.Loss.{credit_investor, repay_each, refund_for_loss}

same_after : (sum : ℤ) (n : ℕ) → sum +ℤ pos n +ℤ negate (pos n) ≡ sum
same_after sum n = omega int_laws

minus_none : (sum : ℤ) (n : ℕ) → (n == 0) ≡ true → sum ≡ sum +ℤ negate (pos n)
minus_none sum n h = omega (int_laws, (==_iff n 0).0 h)

credit_investor-Holds :
    (sum : ℤ) (env : Env) (id next : ℕ) (inv : Investment) (amount : ℕ) (db : Db)
    → Holds sum db
    → Post Any (λ _. Holds (sum +ℤ pos amount)) (credit_investor env id next inv amount db)
unfolding credit_investor create_transaction create_entry Holds
credit_investor-Holds sum env id next inv amount db h = Post-gets _ _ db (
    Post-or_raise _ (payer_wallet inv.user_id db) _ db tt λ w _.
      Post-then (adjust_wallet w.0 (pos amount) (pos 0)) _ db
        (Holds-adjust_wallet sum w.0 (pos amount) (pos 0) db h)
        λ _ d₁ h₁.
          Post-bind (create_transaction next _) _ d₁ (returns h₁) λ txn d₂ h₂.
            Post-then (create_entry _) _ d₂ (returns h₂) λ _ d₃ h₃. Post-pure txn d₃ h₃)

pay-Holds :
    (sum : ℤ) (id amount txn : ℕ) (db : Db)
    → Holds sum db
    → Post Any (λ _. Holds (sum +ℤ negate (pos amount))) (pay_from_reserve id amount txn db)
unfolding pay_from_reserve draw_reserve debit_platform create_entry Holds
pay-Holds sum id amount txn db h =
    Post-branch (amount == 0) (pure tt) _ db
      (λ nothing. Post-pure tt db (h ∙ minus_none sum amount nothing))
      λ _.
        Post-bind (claim_in project_rows id (has_reserve amount) (take_refund amount)) _ db
          (forget _ (
            Apart-claim_in project_rows (Holds sum) (λ t d k. k) id (has_reserve amount)
              (take_refund amount) db h))
          λ claimed d₁ h₁. Post-check _ _ _ d₁ tt λ _. Post-gets platform_wallet _ d₁ (
            Post-or_raise _ (platform_wallet d₁) _ d₁ tt λ w _.
              Post-then (adjust_wallet w.0 (negate (pos amount)) (pos 0)) _ d₁
                (Holds-adjust_wallet sum w.0 (negate (pos amount)) (pos 0) d₁ h₁)
                λ _ d₂ h₂. returns h₂)

repay_each-Holds :
    (sum : ℤ) (env : Env) (id next : ℕ) (parts : List (Investment × ℕ)) (db : Db)
    → Holds sum db
    → Post Any (λ _. Holds sum) (repay_each env id next parts db)
unfolding repay_each Holds
repay_each-Holds sum env id next [] db h = Post-pure 0 db h
repay_each-Holds sum env id next ((inv, amount) ∷ parts) db h =
    Post-bind (credit_investor env id next inv amount) _ db
      (credit_investor-Holds sum env id next inv amount db h)
      λ txn d₁ h₁.
        Post-then (pay_from_reserve id amount txn) _ d₁
          (pay-Holds (sum +ℤ pos amount) id amount txn d₁ h₁)
          λ _ d₂ h₂.
            Post-bind (repay_each env id (suc next) parts) _ d₂
              (repay_each-Holds sum env id (suc next) parts d₂ (h₂ ∙ same_after sum amount))
              λ rest d₃ h₃. Post-pure (amount + rest) d₃ h₃

-- `refundReserveForLoss` that returns leaves the sum of all balances as it was, however many
-- investors it has paid; one that raises, at whichever investor, leaves every table as it was.
pub refund_for_loss-Holds :
    (env : Env) (id : ℕ) (notes : Text) (db : Db)
    → Post (λ d. d ≡ db) (λ _ d. total d ≡ total db) (refund_for_loss env id notes db)
unfolding refund_for_loss Holds total
refund_for_loss-Holds env id notes db = Post-check _ _ _ db refl λ _. Post-gets _ _ db (
    Post-or_raise _ (find id db.projects) _ db refl λ p _. Post-check _ _ _ db refl λ _.
      Post-check _ _ _ db refl λ _. Post-check _ _ _ db refl λ _. Post-check _ _ _ db refl λ _.
        Post-gets _ _ db (
          Post-transaction (repay_each env id env.new_transaction _) db refl
            (repay_each-Holds (total db) env id env.new_transaction _ db refl)))
