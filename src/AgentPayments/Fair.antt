-- ===== src/AgentPayments/Fair.antt =====
-- No intent is refunded beyond its amount.
use farm_backend.Prelude.{
  ℕ, ◌+◌, ◌-◌, ◌*◌, ◌/◌, ◌≤◌, ◌≡◌, refl, ◌∙◌, Bool, false, Option, none, some, arith, ◌==◌, ◌&&◌,
}
use farm_backend.Prelude.Int.{pos_part}
use farm_backend.Prelude.Text.{Text}
use farm_backend.Store.{Db, Intent, Action, update_in, claim_in, create_in, update_where}
use farm_backend.Store.Rules.{
  Post, Post-bind, Post-then, Post-gets, Post-or_raise, Post-pure, Post-check,
}
use farm_backend.Store.Side.{On, On-claim_in, On-update_in, On-create_in, On-update_where}
use farm_backend.Store.Apart.{Apart-update_where}
use farm_backend.Store.Every.{Every, Every-find, Every-modify, Every-insert, Every-map_where}
use farm_backend.Escrow.Env.{Env, given}
use farm_backend.AgentPayments.Tables.{Limits, ensure, Caller, r2, intent_rows, agent_rows}
use farm_backend.AgentPayments.Intents.{
  IntentDto, new_intent, keyed_intent, answer_intent, create_intent, is_stale, expire,
  expire_intent, expire_intents, own_intent, cancel_unpaid, withdraw, cancel_intent, mark_paid,
  simulate_intent,
}

-- Amounts are whole hundredths of a FARM, and no more is refunded than was asked.
pub record IsFair (i : Intent) : Type 0 where
  pub whole : ℕ
  pub asked : i.amount ≡ whole * 1_000_000
  pub back : ℕ
  pub returned : i.amount_refunded ≡ back * 1_000_000
  pub bounded : i.amount_refunded ≤ i.amount

r2_whole : (n : ℕ) → r2 (n * 1_000_000) ≡ n * 1_000_000
unfolding r2
r2_whole n = omega arith

-- The part that the sum of a rounded refund and what was refunded makes.
pub refunded_whole :
    (a b back whole asked : ℕ)
    → a ≡ whole * 1_000_000
    → b ≡ back * 1_000_000
    → b ≤ a
    → r2 asked ≤ r2 (a - b)
    → (r2 (b + r2 asked) ≡ (back + (asked + 500_000) / 1_000_000) * 1_000_000)
      × (r2 (b + r2 asked) ≤ a)
unfolding r2
refunded_whole a b back whole asked e e' le h = (omega (arith, e'), omega (arith, e, e', le, h))

pub same_money :
    (i j : Intent)
    → j.amount ≡ i.amount
    → j.amount_refunded ≡ i.amount_refunded
    → IsFair i
    → IsFair j
same_money i j e e' h = record {
  whole = h.whole;
  asked = e ∙ h.asked;
  back = h.back;
  returned = e' ∙ h.returned;
  bounded = rw (e, e') h.bounded;
}

abbrev pub Fair : Db → Type 0
Fair = On intent_rows (Every IsFair)

-- An action that leaves the intents fair, whether it returns or raises.
abbrev pub KeepsFair : {A : Type 0} → Action A → Type 0
KeepsFair m = (d : Db) → Fair d → Post Fair (λ _. Fair) (m d)

-- A change of status alone.
abbrev pub IsStatusOnly : (Intent → Intent) → Type 0
IsStatusOnly f =
    (x : Intent) → ((f x).amount ≡ x.amount) × ((f x).amount_refunded ≡ x.amount_refunded)

module _ (f : Intent → Intent) (only : IsStatusOnly f) where
  restated : (x : Intent) → IsFair x → IsFair (f x)
  restated x h = same_money x (f x) (only x).0 (only x).1 h

  pub claim-KeepsFair : (id : ℕ) (p : Intent → Bool) → KeepsFair (claim_in intent_rows id p f)
  claim-KeepsFair id p d h =
      On-claim_in intent_rows (Every IsFair) id p f d
        (λ x at _.
          Every-modify IsFair id f d.payment_intents h
            (λ y at'. restated y (Every-find IsFair id d.payment_intents h at')))
        h

  pub update-KeepsFair : (id : ℕ) → KeepsFair (update_in intent_rows id f)
  update-KeepsFair id d h =
      On-update_in intent_rows (Every IsFair) id f d
        (λ x at.
          Every-modify IsFair id f d.payment_intents h
            (λ y at'. restated y (Every-find IsFair id d.payment_intents h at')))
        h

  pub update_where-KeepsFair : (p : Intent → Bool) → KeepsFair (update_where intent_rows p f)
  update_where-KeepsFair p d h =
      On-update_where intent_rows (Every IsFair) p f d
        (Every-map_where IsFair p f d.payment_intents h restated)

pub own_intent-KeepsFair :
    (now business_id id : ℕ) (live : Option Bool) → KeepsFair (own_intent now business_id id live)
unfolding own_intent expire_intent
own_intent-KeepsFair now business_id id live d h =
    Post-then (expire_intent now id) _ d
      (claim-KeepsFair expire (λ x. (refl, refl)) id (is_stale now) d h)
      λ _ d' h'.
        Post-gets _ _ d'
          (Post-or_raise _ _ _ d' h' λ i _. Post-check _ _ _ d' h' λ _. Post-pure i d' h')

pub expire_intents-KeepsFair : (now business_id : ℕ) → KeepsFair (expire_intents now business_id)
unfolding expire_intents
expire_intents-KeepsFair now business_id d h =
    update_where-KeepsFair expire (λ x. (refl, refl))
      (λ i. i.business_id == business_id && is_stale now i) d h

new_intent-IsFair :
    (env : Env) (l : Limits) (ctx : Caller) (dto : IntentDto) (key : Option Text)
    → IsFair (new_intent env l ctx dto key (r2 (pos_part dto.amount)))
unfolding r2
new_intent-IsFair env l ctx dto key = record {
  whole = (pos_part dto.amount + 500_000) / 1_000_000;
  asked = refl;
  back = 0;
  returned = refl;
  bounded = omega arith;
}

pub create_intent-KeepsFair :
    (env : Env) (l : Limits) (ctx : Caller) (dto : IntentDto) (idem : Option Text) (new_id : ℕ)
    → KeepsFair (create_intent env l ctx dto idem new_id)
unfolding create_intent ensure answer_intent
create_intent-KeepsFair env l ctx dto idem new_id d h = Post-check _ _ _ d h λ _.
    Post-check _ _ _ d h λ _. Post-gets _ _ d (go (keyed_intent ctx.business_id (given idem) d))
  where
    amount : ℕ
    amount = r2 (pos_part dto.amount)

    row : Intent
    row = new_intent env l ctx dto (given idem) amount

    go : (o : Option (ℕ × Intent)) → Post Fair (λ _. Fair) (answer_intent o amount new_id row d)
    go none =
        Post-then (create_in intent_rows new_id row) _ d
          (On-create_in intent_rows (Every IsFair) new_id row d
            (λ t.
              Every-insert IsFair new_id row d.payment_intents t
                (new_intent-IsFair env l ctx dto (given idem)))
            h)
          λ _ d' h'. Post-pure (new_id, row) d' h'
    go (some i) = Post-check _ _ _ d h λ _. Post-pure i d h

pub cancel_intent-KeepsFair :
    (now business_id id : ℕ) (live : Option Bool)
    → KeepsFair (cancel_intent now business_id id live)
unfolding cancel_intent
cancel_intent-KeepsFair now business_id id live d h =
    Post-then (own_intent now business_id id live) _ d
      (own_intent-KeepsFair now business_id id live d h)
      λ _ d₁ h₁.
        Post-bind (claim_in intent_rows id _ (cancel_unpaid now)) _ d₁
          (claim-KeepsFair (cancel_unpaid now) (λ x. (refl, refl)) id _ d₁ h₁)
          λ claimed d₂ h₂. Post-check _ _ _ d₂ h₂ λ _.
            Post-then (update_where agent_rows _ (withdraw now)) _ d₂
              (Apart-update_where agent_rows Fair (λ t d k. k) _ (withdraw now) d₂ h₂)
              λ _ d₃ h₃. own_intent-KeepsFair now business_id id none d₃ h₃

pub simulate_intent-KeepsFair :
    (now business_id id : ℕ) → KeepsFair (simulate_intent now business_id id)
unfolding simulate_intent
simulate_intent-KeepsFair now business_id id d h =
    Post-then (own_intent now business_id id (some false)) _ d
      (own_intent-KeepsFair now business_id id (some false) d h)
      λ _ d₁ h₁.
        Post-bind (claim_in intent_rows id _ (mark_paid now)) _ d₁
          (claim-KeepsFair (mark_paid now) (λ x. (refl, refl)) id _ d₁ h₁)
          λ claimed d₂ h₂.
            Post-check _ _ _ d₂ h₂ λ _. own_intent-KeepsFair now business_id id none d₂ h₂
