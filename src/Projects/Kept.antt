-- ===== src/Projects/Kept.antt =====
-- What each function does to the reserves of projects.
use farm_backend.Prelude.{
  ℕ, suc, ◌+◌, ◌≤◌, ◌≡◌, ◌∙◌, sym, Bool, true, false, not, Option, none, some, List, [], ◌∷◌, arith,
  ◌==◌, ◌||◌, subst, some_inj,
}
use farm_backend.Prelude.Int.{pos, negate}
use farm_backend.Prelude.Text.{Text}
use farm_backend.Prelude.Table.{find}
use farm_backend.Store.{
  Db, Project, Investment, Action, adjust_wallet, create_transaction, create_entry, claim_in, pure,
}
use farm_backend.Store.Rules.{
  Post, Post-bind, Post-then, Post-gets, Post-or_raise, Post-pure, Post-branch, Post-check,
  Post-transaction, forget,
}
use farm_backend.Store.Side.{
  On, On-claim_in, On-adjust_wallet, On-create_transaction, On-create_entry,
}
use farm_backend.Store.Every.{Every, Every-find, Every-modify}
use farm_backend.Escrow.Env.{Env}
use farm_backend.Escrow.{is_some, platform_wallet}
use farm_backend.AgentPayments.{payer_wallet}
use farm_backend.Wallets.{credit_platform}
use farm_backend.Wallets.Elsewhere.{credit_platform-Stays}
use farm_backend.Projects.Reserve.{
  project_rows, charged, listing_fee, credit_fee, charge_row, charge_consolidation, close_round,
  has_reserve, take_refund, take_release, debit_platform, draw_reserve, pay_from_reserve,
  reclassify, keep_reserve, release_reserve,
}
use farm_backend.Projects.Loss.{
  credit_investor, repay_each, refund_for_loss, release_tx_of, release_to_farm,
}

-- What is paid out and what FARM has kept is within the reserve, which is empty until it is charged.
pub record IsReserved (p : Project) : Type 0 where
  pub within : p.consolidation_refunded + p.consolidation_released ≤ p.consolidation_fee
  pub uncharged : is_some p.consolidation_fee_at ≡ false → p.consolidation_fee ≡ 0

abbrev pub Reserved : Db → Type 0
Reserved = On project_rows (Every IsReserved)

abbrev pub KeepsReserve : {A : Type 0} → Action A → Type 0
KeepsReserve m = (d : Db) → Reserved d → Post Reserved (λ _. Reserved) (m d)

claim-KeepsReserve :
    (id : ℕ) (p : Project → Bool) (f : Project → Project)
    → ((x : Project) → IsReserved x → p x ≡ true → IsReserved (f x))
    → KeepsReserve (claim_in project_rows id p f)
claim-KeepsReserve id p f step d h =
    On-claim_in project_rows (Every IsReserved) id p f d
      (λ x at passes. Every-modify IsReserved id f d.projects h λ y at'.
        let same : x ≡ y = some_inj (sym at ∙ at') in
        step y (Every-find IsReserved id d.projects h at') (subst (λ z. p z ≡ true) same passes))
      h

is_false : (b : Bool) → not b ≡ true → b ≡ false
is_false b h = ground arith

charged-IsReserved :
    (amount now : ℕ) (x : Project)
    → IsReserved x
    → not (is_some x.consolidation_fee_at) ≡ true
    → IsReserved (charged amount now x)
charged-IsReserved amount now x h open_ = record {
  within = omega (arith, h.within, h.uncharged (is_false (is_some x.consolidation_fee_at) open_));
  uncharged = λ never. absurd (cc);
}

taken-IsReserved :
    (amount : ℕ) (x : Project)
    → IsReserved x
    → has_reserve amount x ≡ true
    → IsReserved (take_refund amount x) × IsReserved (take_release amount x)
unfolding has_reserve
taken-IsReserved amount x h enough =
    let le : x.consolidation_refunded + x.consolidation_released + amount ≤ x.consolidation_fee =
      ground (arith, enough) in
    (
      record { within = omega (arith, le); uncharged = h.uncharged },
      record { within = omega (arith, le); uncharged = h.uncharged },
    )

module _ (env : Env) (id : ℕ) where
  credit_fee-KeepsReserve : (amount : ℕ) → KeepsReserve (credit_fee env id amount)
  unfolding credit_fee
  credit_fee-KeepsReserve amount d h =
      Post-bind (create_transaction env.new_transaction _) _ d
        (On-create_transaction project_rows (Every IsReserved) env.new_transaction _ d h)
        λ txn d₁ h₁.
          Post-then (credit_platform amount (some txn)) _ d₁
            (credit_platform-Stays project_rows (Every IsReserved) amount (some txn) d₁ h₁)
            λ _ d₂ h₂. Post-pure amount d₂ h₂

  charge-KeepsReserve : KeepsReserve (charge_consolidation env id)
  unfolding charge_consolidation charge_row
  charge-KeepsReserve d h = Post-gets _ _ d (go (find id d.projects))
    where
      go : (o : Option Project) → Post Reserved (λ _. Reserved) (charge_row env id o d)
      go none = Post-pure 0 d h
      go (some p) =
          Post-branch (is_some p.consolidation_fee_at) (pure 0) _ d (λ _. Post-pure 0 d h)
            λ _.
              Post-bind (claim_in project_rows id _ _) _ d
                (claim-KeepsReserve id _ (charged (listing_fee env p.raised_amount) env.now)
                  (charged-IsReserved (listing_fee env p.raised_amount) env.now) d h)
                λ claimed d₁ h₁.
                  Post-branch (not claimed || listing_fee env p.raised_amount == 0) (pure 0) _ d₁
                    (λ _. Post-pure 0 d₁ h₁)
                    λ _. credit_fee-KeepsReserve (listing_fee env p.raised_amount) d₁ h₁

  pub close_round-KeepsReserve : KeepsReserve (close_round env id)
  unfolding close_round
  close_round-KeepsReserve d h =
      Post-transaction (charge_consolidation env id) d h (forget _ (charge-KeepsReserve d h))

debit_platform-KeepsReserve : (amount txn : ℕ) → KeepsReserve (debit_platform amount txn)
unfolding debit_platform
debit_platform-KeepsReserve amount txn d h = Post-gets platform_wallet _ d (
    Post-or_raise _ (platform_wallet d) _ d h λ w _.
      Post-then (adjust_wallet w.0 (negate (pos amount)) (pos 0)) _ d
        (On-adjust_wallet project_rows (Every IsReserved) w.0 (negate (pos amount)) (pos 0) d h)
        λ _ d' h'. On-create_entry project_rows (Every IsReserved) _ d' h')

pub pay-KeepsReserve : (id amount txn : ℕ) → KeepsReserve (pay_from_reserve id amount txn)
unfolding pay_from_reserve draw_reserve
pay-KeepsReserve id amount txn d h =
    Post-branch (amount == 0) (pure tt) _ d (λ _. Post-pure tt d h)
      λ _.
        Post-bind (claim_in project_rows id (has_reserve amount) (take_refund amount)) _ d
          (claim-KeepsReserve id (has_reserve amount) (take_refund amount)
            (λ x r e. (taken-IsReserved amount x r e).0) d h)
          λ claimed d₁ h₁. Post-check _ _ _ d₁ h₁ λ _. debit_platform-KeepsReserve amount txn d₁ h₁

release-KeepsReserve : (id amount txn : ℕ) → KeepsReserve (release_reserve id amount txn)
unfolding release_reserve keep_reserve reclassify
release-KeepsReserve id amount txn d h =
    Post-branch (amount == 0) (pure tt) _ d (λ _. Post-pure tt d h)
      λ _.
        Post-bind (claim_in project_rows id (has_reserve amount) (take_release amount)) _ d
          (claim-KeepsReserve id (has_reserve amount) (take_release amount)
            (λ x r e. (taken-IsReserved amount x r e).1) d h)
          λ claimed d₁ h₁. Post-check _ _ _ d₁ h₁ λ _. Post-gets platform_wallet _ d₁ (
            Post-or_raise _ (platform_wallet d₁) _ d₁ h₁ λ w _.
              Post-then (create_entry _) _ d₁
                (On-create_entry project_rows (Every IsReserved) _ d₁ h₁)
                λ _ d₂ h₂. On-create_entry project_rows (Every IsReserved) _ d₂ h₂)

credit_investor-KeepsReserve :
    (env : Env) (id next : ℕ) (inv : Investment) (amount : ℕ)
    → KeepsReserve (credit_investor env id next inv amount)
unfolding credit_investor
credit_investor-KeepsReserve env id next inv amount d h = Post-gets _ _ d (
    Post-or_raise _ (payer_wallet inv.user_id d) _ d h λ w _.
      Post-then (adjust_wallet w.0 (pos amount) (pos 0)) _ d
        (On-adjust_wallet project_rows (Every IsReserved) w.0 (pos amount) (pos 0) d h)
        λ _ d₁ h₁.
          Post-bind (create_transaction next _) _ d₁
            (On-create_transaction project_rows (Every IsReserved) next _ d₁ h₁)
            λ txn d₂ h₂.
              Post-then (create_entry _) _ d₂
                (On-create_entry project_rows (Every IsReserved) _ d₂ h₂)
                λ _ d₃ h₃. Post-pure txn d₃ h₃)

repay_each-KeepsReserve :
    (env : Env) (id next : ℕ) (parts : List (Investment × ℕ))
    → KeepsReserve (repay_each env id next parts)
unfolding repay_each
repay_each-KeepsReserve env id next [] d h = Post-pure 0 d h
repay_each-KeepsReserve env id next ((inv, amount) ∷ parts) d h =
    Post-bind (credit_investor env id next inv amount) _ d
      (credit_investor-KeepsReserve env id next inv amount d h)
      λ txn d₁ h₁.
        Post-then (pay_from_reserve id amount txn) _ d₁ (pay-KeepsReserve id amount txn d₁ h₁)
          λ _ d₂ h₂.
            Post-bind (repay_each env id (suc next) parts) _ d₂
              (repay_each-KeepsReserve env id (suc next) parts d₂ h₂)
              λ sum d₃ h₃. Post-pure (amount + sum) d₃ h₃

pub refund_for_loss-KeepsReserve :
    (env : Env) (id : ℕ) (notes : Text) → KeepsReserve (refund_for_loss env id notes)
unfolding refund_for_loss
refund_for_loss-KeepsReserve env id notes d h = Post-check _ _ _ d h λ _. Post-gets _ _ d (
    Post-or_raise _ (find id d.projects) _ d h λ p _. Post-check _ _ _ d h λ _.
      Post-check _ _ _ d h λ _. Post-check _ _ _ d h λ _. Post-check _ _ _ d h λ _.
        Post-gets _ _ d (
          Post-transaction (repay_each env id env.new_transaction _) d h
            (forget _ (repay_each-KeepsReserve env id env.new_transaction _ d h))))

pub release_to_farm-KeepsReserve :
    (env : Env) (id : ℕ) (notes : Text) → KeepsReserve (release_to_farm env id notes)
unfolding release_to_farm release_tx_of
release_to_farm-KeepsReserve env id notes d h = Post-check _ _ _ d h λ _. Post-gets _ _ d (
    Post-or_raise _ (find id d.projects) _ d h λ p _. Post-check _ _ _ d h λ _.
      Post-check _ _ _ d h λ _. Post-check _ _ _ d h λ _. Post-check _ _ _ d h λ _.
        Post-transaction (release_tx_of env id _) d h (
          forget _ (
            Post-bind (create_transaction env.new_transaction _) _ d
              (On-create_transaction project_rows (Every IsReserved) env.new_transaction _ d h)
              λ txn d₁ h₁.
                Post-then (release_reserve id _ txn) _ d₁ (release-KeepsReserve id _ txn d₁ h₁)
                  λ _ d₂ h₂. Post-pure txn d₂ h₂)))
