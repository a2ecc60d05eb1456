-- ===== src/AgentPayments/Served.antt =====
-- Whatever the service is asked to do, no intent is refunded beyond its amount.
use farm_backend.Prelude.{ℕ, ⊤, refl, Option, ◌&&◌}
use farm_backend.Prelude.Text.{Text}
use farm_backend.Prelude.Table.{find}
use farm_backend.Store.{
  Intent, in_payment, succeeded, ◌>>◌, Error, update_in, claim_in, create_in, rescue, raise, pure,
}
use farm_backend.Store.Rules.{
  Post-bind, Post-then, Post-gets, Post-or_raise, Post-pure, Post-raise, Post-branch, Post-check,
  Post-or, Post-recover,
}
use farm_backend.Store.Apart.{Apart-create_in}
use farm_backend.Store.Every.{Every}
use farm_backend.Escrow.Env.{Env, given}
use farm_backend.Escrow.{is_id, active_wallet}
use farm_backend.Wallets.{send_funds}
use farm_backend.Wallets.Elsewhere.{send_funds-Stays}
use farm_backend.AgentPayments.Tables.{
  ensure, is_at, intent_rows, business_payment_rows, business_named,
}
use farm_backend.AgentPayments.Intents.{is_stale, expire, expire_intent}
use farm_backend.AgentPayments.Pay.{
  Channel, take_up, hand_back, settle_intent, send_to_owner, pay_claimed, pay_open, pay_intent,
}
use farm_backend.AgentPayments.Fair.{IsFair, Fair, KeepsFair, claim-KeepsFair, update-KeepsFair}

module _ (env : Env) (ch : Channel) (payer_id id : ℕ) where
  send_to_owner-KeepsFair :
      (pin : Text) (owner_id : ℕ) (i : Intent)
      → KeepsFair (send_to_owner env ch payer_id id pin owner_id i)
  unfolding send_to_owner
  send_to_owner-KeepsFair pin owner_id i d h = Post-gets _ _ d (
      Post-or_raise _ (active_wallet owner_id d) _ d h λ wallet _.
        Post-then (send_funds env ch.today payer_id ch.merchant_pays _) _ d
          (send_funds-Stays intent_rows (Every IsFair) env ch.today payer_id ch.merchant_pays _ d h)
          λ _ d' h'. Post-pure tt d' h')

  hand_back-KeepsFair :
      (e : Error)
      → KeepsFair {A = ⊤}
          (claim_in intent_rows id (λ r. is_at r.status in_payment) hand_back >> raise e)
  hand_back-KeepsFair e d h =
      Post-then (claim_in intent_rows id _ hand_back) _ d
        (claim-KeepsFair hand_back (λ x. (refl, refl)) id _ d h) λ _ d' h'. Post-raise e d' h'

  pay_claimed-KeepsFair :
      (pin : Text) (owner_id : ℕ) (i : Intent)
      → KeepsFair (pay_claimed env ch payer_id id pin owner_id i)
  unfolding pay_claimed
  pay_claimed-KeepsFair pin owner_id i d h =
      Post-then (rescue (send_to_owner env ch payer_id id pin owner_id i) _) _ d
        (Post-recover (send_to_owner env ch payer_id id pin owner_id i) _ d
          (send_to_owner-KeepsFair pin owner_id i d h) hand_back-KeepsFair)
        λ _ d₁ h₁.
          Post-bind (update_in intent_rows id (settle_intent env.reference env.now)) _ d₁
            (update-KeepsFair (settle_intent env.reference env.now) (λ x. (refl, refl)) id d₁ h₁)
            λ done d₂ h₂.
              Post-then (create_in business_payment_rows ch.new_payment _) _ d₂
                (Apart-create_in business_payment_rows Fair (λ t d k. k) ch.new_payment _ d₂ h₂)
                λ _ d₃ h₃. Post-pure done d₃ h₃

  pay_open-KeepsFair : (pin : Text) (i : Intent) → KeepsFair (pay_open env ch payer_id id pin i)
  unfolding pay_open business_named
  pay_open-KeepsFair pin i d h = Post-check _ _ _ d h λ _.
      Post-bind (business_named i.business_id) _ d
        (Post-gets _ _ d (Post-or _ (find i.business_id d.businesses) d h (λ _. h)))
        λ b d₁ h₁. Post-check _ _ _ d₁ h₁ λ _.
          Post-bind (claim_in intent_rows id _ (take_up payer_id)) _ d₁
            (claim-KeepsFair (take_up payer_id) (λ x. (refl, refl)) id _ d₁ h₁)
            λ claimed d₂ h₂.
              Post-check _ _ _ d₂ h₂ λ _. pay_claimed-KeepsFair pin b.owner_user_id i d₂ h₂

  pub pay_intent-KeepsFair : (pin : Option Text) → KeepsFair (pay_intent env ch payer_id id pin)
  unfolding pay_intent ensure expire_intent
  pay_intent-KeepsFair pin d h = Post-check _ _ _ d h λ _.
      Post-or_raise _ (given pin) _ d h λ text _.
        Post-then (expire_intent env.now id) _ d
          (claim-KeepsFair expire (λ x. (refl, refl)) id (is_stale env.now) d h)
          λ _ d₁ h₁. Post-gets _ _ d₁ (
            Post-or_raise _ (find id d₁.payment_intents) _ d₁ h₁ λ i _. Post-check _ _ _ d₁ h₁ λ _.
              Post-branch (is_at i.status succeeded && is_id payer_id i.payer_user_id) (pure i) _ d₁
                (λ _. Post-pure i d₁ h₁) λ _. pay_open-KeepsFair text i d₁ h₁)
