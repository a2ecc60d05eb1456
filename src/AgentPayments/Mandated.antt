-- ===== src/AgentPayments/Mandated.antt =====
-- The mandates and the requests of agents leave the intents fair.
use farm_backend.Prelude.{ℕ, true, Option, none, some, leb}
use farm_backend.Prelude.Text.{Text}
use farm_backend.Prelude.Table.{find}
use farm_backend.Store.{
  Intent, Mandate, AgentRequest, Error, claim_in, update_in, create_in, update_where, pure,
}
use farm_backend.Store.Rules.{
  Post, Post-bind, Post-then, Post-gets, Post-or_raise, Post-or, Post-pure, Post-raise, Post-branch,
  Post-check, Post-last, Post-recover,
}
use farm_backend.Store.Apart.{Apart-create_in, Apart-update_where, Apart-claim_in, Apart-update_in}
use farm_backend.Store.Every.{Every}
use farm_backend.Escrow.Env.{Env, given}
use farm_backend.Auth.{verify_pin}
use farm_backend.Wallets.Elsewhere.{verify_pin-Stays}
use farm_backend.AgentPayments.Tables.{
  Limits, ensure, Caller, intent_rows, agent_rows, mandate_rows, business_named,
}
use farm_backend.AgentPayments.Intents.{own_intent, withdraw}
use farm_backend.AgentPayments.Pay.{Channel, pay_intent}
use farm_backend.AgentPayments.Mandates.{
  MandateDto, create_mandate, revoke_mandate, revoke, Calendar, check_caps,
}
use farm_backend.AgentPayments.Agents.{
  AgentDto, open_request, keyed_request, or_else, store_request, ask_user, create_agent_request,
  reject_agent_request, expire_requests, is_last_error, fail, confirm, is_confirmed, pay_request_of,
  fail_request, lapse_request, claim_request, confirm_open, confirm_request,
}
use farm_backend.AgentPayments.Fair.{IsFair, Fair, KeepsFair, own_intent-KeepsFair}
use farm_backend.AgentPayments.Served.{pay_intent-KeepsFair}

-- A check of caps writes nothing.
check_caps-KeepsFair :
    (now : ℕ) (cal : Calendar) (id : ℕ) (m : Mandate) (amount : ℕ) (exclude : Option ℕ)
    → KeepsFair (check_caps now cal id m amount exclude)
unfolding check_caps
check_caps-KeepsFair now cal id m amount exclude d h = Post-check _ _ _ d h λ _.
    Post-check _ _ _ d h
      λ _. Post-gets _ _ d (Post-gets _ _ d (Post-check _ _ _ d h λ _. Post-last _ _ d h λ _. h))

pub create_mandate-KeepsFair :
    (env : Env) (l : Limits) (user_id : ℕ) (dto : MandateDto) (new_id : ℕ)
    → KeepsFair (create_mandate env l user_id dto new_id)
unfolding create_mandate business_named ensure
create_mandate-KeepsFair env l user_id dto new_id d h = Post-check _ _ _ d h λ _.
    Post-then (verify_pin env.bcrypt user_id dto.pin) _ d
      (verify_pin-Stays intent_rows (Every IsFair) env.bcrypt user_id dto.pin d h)
      λ _ d₁ h₁.
        Post-bind (business_named dto.business_id) _ d₁
          (Post-gets _ _ d₁ (Post-or _ (find dto.business_id d₁.businesses) d₁ h₁ (λ _. h₁)))
          λ b d₂ h₂. Post-check _ _ _ d₂ h₂ λ _. Post-check _ _ _ d₂ h₂ λ _.
            Post-check _ _ _ d₂ h₂ λ _. Post-check _ _ _ d₂ h₂ λ _. Post-check _ _ _ d₂ h₂ λ _.
              Post-check _ _ _ d₂ h₂ λ _. Post-check _ _ _ d₂ h₂ λ _.
                Post-then (create_in mandate_rows new_id _) _ d₂
                  (Apart-create_in mandate_rows Fair (λ t d k. k) new_id _ d₂ h₂)
                  λ _ d₃ h₃. Post-pure _ d₃ h₃

pub revoke_mandate-KeepsFair : (now user_id id : ℕ) → KeepsFair (revoke_mandate now user_id id)
unfolding revoke_mandate
revoke_mandate-KeepsFair now user_id id d h =
    Post-bind (claim_in mandate_rows id _ (revoke now)) _ d
      (Apart-claim_in mandate_rows Fair (λ t d k. k) id _ (revoke now) d h)
      λ claimed d₁ h₁. Post-check _ _ _ d₁ h₁ λ _.
        Post-then (update_where agent_rows _ (withdraw now)) _ d₁
          (Apart-update_where agent_rows Fair (λ t d k. k) _ (withdraw now) d₁ h₁)
          λ _ d₂ h₂. Post-gets _ _ d₂ (Post-or _ (find id d₂.agent_authorizations) d₂ h₂ (λ _. h₂))

pub reject_agent_request-KeepsFair :
    (now user_id id : ℕ) → KeepsFair (reject_agent_request now user_id id)
unfolding reject_agent_request
reject_agent_request-KeepsFair now user_id id d h =
    Post-bind (claim_in agent_rows id _ _) _ d
      (Apart-claim_in agent_rows Fair (λ t d k. k) id _ _ d h)
      λ claimed d₁ h₁.
        Post-check _ _ _ d₁ h₁
          λ _. Post-gets _ _ d₁ (Post-or _ (find id d₁.agent_requests) d₁ h₁ (λ _. h₁))

pub expire_requests-KeepsFair : (now user_id : ℕ) → KeepsFair (expire_requests now user_id)
unfolding expire_requests
expire_requests-KeepsFair now user_id d h = Apart-update_where agent_rows Fair (λ t d k. k) _ _ d h

module _ (env : Env) (l : Limits) (cal : Calendar) (ctx : Caller) (dto : AgentDto) where
  ask_user-KeepsFair :
      (key : Option Text) (new_id : ℕ) → KeepsFair (ask_user env l cal ctx dto key new_id)
  unfolding ask_user store_request
  ask_user-KeepsFair key new_id d h = Post-gets _ _ d (
      Post-or_raise _ (find dto.authorization_id d.agent_authorizations) _ d h λ m _.
        Post-check _ _ _ d h λ _.
          Post-bind (own_intent env.now ctx.business_id dto.payment_intent_id (some true)) _ d
            (own_intent-KeepsFair env.now ctx.business_id dto.payment_intent_id (some true) d h)
            λ i d₁ h₁. Post-check _ _ _ d₁ h₁ λ _.
              Post-then (check_caps env.now cal dto.authorization_id m i.amount none) _ d₁
                (check_caps-KeepsFair env.now cal dto.authorization_id m i.amount none d₁ h₁)
                λ _ d₂ h₂. Post-gets _ _ d₂ (go m i (open_request dto.payment_intent_id d₂) d₂ h₂))
    where
      go :
          (m : Mandate) (i : Intent) (o : Option (ℕ × AgentRequest))
          → KeepsFair (or_else o (store_request env l m.user_id ctx.business_id dto i key new_id))
      go m i none d h =
          Post-then (create_in agent_rows new_id _) _ d
            (Apart-create_in agent_rows Fair (λ t d k. k) new_id _ d h) λ _ d' h'. Post-pure _ d' h'
      go m i (some r) d h = Post-pure r d h

  pub create_agent_request-KeepsFair :
      (idem : Option Text) (new_id : ℕ)
      → KeepsFair (create_agent_request env l cal ctx dto idem new_id)
  unfolding create_agent_request ensure
  create_agent_request-KeepsFair idem new_id d h = Post-check _ _ _ d h λ _.
      Post-check _ _ _ d h λ _. Post-gets _ _ d (go (keyed_request ctx.business_id (given idem) d))
    where
      go :
          (o : Option (ℕ × AgentRequest))
          → Post Fair (λ _. Fair) (or_else o (ask_user env l cal ctx dto (given idem) new_id) d)
      go none = ask_user-KeepsFair (given idem) new_id d h
      go (some r) = Post-pure r d h

module _ (env : Env) (cal : Calendar) (ch : Channel) (user_id id : ℕ) where
  pay_request_of-KeepsFair :
      (pin : Option Text) (r : AgentRequest)
      → KeepsFair (pay_request_of env cal ch user_id id pin r)
  unfolding pay_request_of
  pay_request_of-KeepsFair pin r d h = Post-gets _ _ d (
      Post-or_raise _ (find r.authorization_id d.agent_authorizations) _ d h λ m _.
        Post-then (check_caps env.now cal r.authorization_id m r.amount (some id)) _ d
          (check_caps-KeepsFair env.now cal r.authorization_id m r.amount (some id) d h)
          λ _ d₁ h₁.
            Post-bind (pay_intent env ch user_id r.intent_id pin) _ d₁
              (pay_intent-KeepsFair env ch user_id r.intent_id pin d₁ h₁)
              λ paid d₂ h₂.
                Apart-update_in agent_rows Fair (λ t d k. k) id
                  (confirm env.now paid.transaction_reference) d₂ h₂)

  fail_request-KeepsFair : (e : Error) → KeepsFair (fail_request env cal ch user_id id e)
  unfolding fail_request
  fail_request-KeepsFair e d h =
      Post-then (update_in agent_rows id (fail (is_last_error e) env.now)) _ d
        (Apart-update_in agent_rows Fair (λ t d k. k) id (fail (is_last_error e) env.now) d h)
        λ _ d' h'. Post-raise e d' h'

  pub confirm_request-KeepsFair :
      (pin : Option Text) → KeepsFair (confirm_request env cal ch user_id id pin)
  unfolding confirm_request confirm_open lapse_request claim_request ensure
  confirm_request-KeepsFair pin d h = Post-check _ _ _ d h λ _. Post-gets _ _ d (
      Post-or_raise _ _ _ d h λ r _. Post-check _ _ _ d h λ _.
        Post-branch (is_confirmed r.status) (pure r) _ d (λ _. Post-pure r d h)
          λ _. Post-check _ _ _ d h λ _.
            Post-branch (leb r.expires_at env.now) (lapse_request env cal ch user_id id) _ d
              (λ _.
                Post-then (claim_in agent_rows id _ _) _ d
                  (Apart-claim_in agent_rows Fair (λ t d k. k) id _ _ d h)
                  λ _ d' h'. Post-raise _ d' h')
              λ _.
                Post-bind (claim_in agent_rows id _ _) _ d
                  (Apart-claim_in agent_rows Fair (λ t d k. k) id _ _ d h)
                  λ claimed d₁ h₁. Post-check _ _ _ d₁ h₁ λ _.
                    Post-recover (pay_request_of env cal ch user_id id pin r) _ d₁
                      (pay_request_of-KeepsFair pin r d₁ h₁) fail_request-KeepsFair)
