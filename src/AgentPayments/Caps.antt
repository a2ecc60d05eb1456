-- ===== src/AgentPayments/Caps.antt =====
-- A mandate's caps, and the requests made under it.
use farm_backend.Prelude.{
  ℕ, ◌+◌, ◌*◌, ◌≤◌, ◌<◌, ◌≡◌, refl, sym, ap, ◌∙◌, ◌⊎◌, inl, inr, Bool, true, false, Option, none,
  some, arith, [], ◌∷◌, ◌||◌, Bool-cases, subst,
}
use farm_backend.Prelude.Text.{Text}
use farm_backend.Prelude.Table.{Table, find, insert}
use farm_backend.Store.{Db, Mandate, AgentRequest, Intent, create_in, ◌>>◌, ◌>>=◌, next, pure}
use farm_backend.Store.Rules.{
  Post, returns, Any, Post-bind, Post-then, Post-gets, Post-or_raise, Post-pure, Post-check,
  Post-nothing, Post-last, forget,
}
use farm_backend.Store.Apart.{Apart-claim_in}
use farm_backend.Escrow.Env.{Env, given}
use farm_backend.Auth.{verify_pin}
use farm_backend.AgentPayments.Tables.{
  Limits, ensure, Caller, business_named, mandate_rows, intent_rows,
}
use farm_backend.AgentPayments.Intents.{own_intent, expire_intent, is_stale, expire}
use farm_backend.AgentPayments.Mandates.{
  MandateDto, create_mandate, is_used, sum_amount, usage, Calendar, check_caps,
}
use farm_backend.AgentPayments.Agents.{
  AgentDto, open_request, keyed_request, or_else, store_request, ask_user, create_agent_request,
}

either : (a b : Bool) → (a || b) ≡ false → (a ≡ false) × (b ≡ false)
either a b h = ground arith

-- A mandate is in the limits of the service, and its caps are in order.
pub record IsOrdered (now : ℕ) (l : Limits) (m : Mandate) : Type 0 where
  pub pays : 0 < m.per_tx_cap
  pub per_tx : m.per_tx_cap ≤ l.max_per_tx
  pub per_day : m.per_tx_cap ≤ m.daily_cap
  pub per_month : m.daily_cap ≤ m.monthly_cap
  pub monthly : m.monthly_cap ≤ l.max_monthly
  pub lasts : now + 86_400_000 ≤ m.expires_at
  pub ends : m.expires_at ≤ now + 365 * 86_400_000

-- A mandate that `createMandate` returns pays a positive amount at a time that is at most its
-- daily cap, which is at most its monthly cap; the first and the last are within the limits of the
-- service, and it ends after one to 365 days.
pub create_mandate-IsOrdered :
    (env : Env) (l : Limits) (user_id new_id : ℕ) (dto : MandateDto) (db : Db)
    → Post Any
        (λ r d. (r.0 ≡ new_id) × IsOrdered env.now l r.1)
        (create_mandate env l user_id dto new_id db)
unfolding create_mandate
create_mandate-IsOrdered env l user_id new_id dto db =
    Post-then (ensure l) _ db (Post-nothing _) λ _ d _.
      Post-then (verify_pin env.bcrypt user_id dto.pin) _ d (Post-nothing _) λ _ d₁ _.
        Post-bind (business_named dto.business_id) _ d₁ (Post-nothing _) λ b d₂ _.
          Post-check _ _ _ d₂ tt λ _. Post-check _ _ _ d₂ tt λ _. Post-check _ _ _ d₂ tt λ per.
            Post-check _ _ _ d₂ tt λ day. Post-check _ _ _ d₂ tt λ month.
              Post-check _ _ _ d₂ tt λ most. Post-check _ _ _ d₂ tt λ days.
                Post-then (create_in mandate_rows new_id _) _ d₂ (Post-nothing _) λ _ d₃ _.
                  Post-pure _ d₃ (
                    refl,
                    record {
                      pays = ground (arith, per);
                      per_tx = ground (arith, per);
                      per_day = ground (arith, day);
                      per_month = ground (arith, month);
                      monthly = ground (arith, most);
                      lasts = ground (arith, days);
                      ends = ground (arith, days);
                    },
                  )

-- What the requests under a mandate, those of today and of this month, may sum up to.
pub record IsWithin (cal : Calendar) (id : ℕ) (r : AgentRequest) (d : Db) : Type 0 where
  pub mandate : Mandate
  pub at : find id d.agent_authorizations ≡ some mandate
  pub per_tx : r.amount ≤ mandate.per_tx_cap
  pub daily : usage id none cal.day d ≤ mandate.daily_cap
  pub monthly : usage id none cal.month d ≤ mandate.monthly_cap

sum_amount-insert :
    (p : ℕ → AgentRequest → Bool) (k : ℕ) (r : AgentRequest) (t : Table AgentRequest)
    → sum_amount p (insert k r t) ≤ sum_amount p t + r.amount
unfolding sum_amount insert
sum_amount-insert p k r [] = elim (Bool-cases (p k r)) [
  | inl counts ↦ rw counts (omega arith)
  | inr not_it ↦ rw not_it (omega arith)
]
sum_amount-insert p k r ((j, x) ∷ t) = elim (Bool-cases (p j x)) [
  | inl counts ↦ rw counts (omega (arith, sum_amount-insert p k r t))
  | inr not_it ↦ rw not_it (omega (arith, sum_amount-insert p k r t))
]

module _ (now : ℕ) (cal : Calendar) (id : ℕ) (m : Mandate) (amount : ℕ) where
  check_caps-returns :
      (d : Db)
      → Post Any
          (λ _ d'.
            (d' ≡ d)
            × (amount ≤ m.per_tx_cap)
            × (usage id none cal.day d + amount ≤ m.daily_cap)
            × (usage id none cal.month d + amount ≤ m.monthly_cap))
          (check_caps now cal id m amount none d)
  unfolding check_caps
  check_caps-returns d = Post-check _ _ _ d tt λ _. Post-check _ _ _ d tt λ per. Post-gets _ _ d (
      Post-gets _ _ d (
        Post-check _ _ _ d tt λ day.
          Post-last _ _ d tt
            λ month. (refl, ground (arith, per), ground (arith, day), ground (arith, month))))

abbrev Kept : Db → Db → Type 0
Kept a b = (b.agent_requests ≡ a.agent_requests) × (b.agent_authorizations ≡ a.agent_authorizations)

own_intent-Kept :
    (now business_id id : ℕ) (live : Option Bool) (db : Db)
    → Post Any (λ _. Kept db) (own_intent now business_id id live db)
unfolding own_intent expire_intent
own_intent-Kept now business_id id live db = Post-then (expire_intent now id) _ db expires λ _ d k.
    Post-gets _ _ d (Post-or_raise _ _ _ d tt λ i _. Post-check _ _ _ d tt λ _. Post-pure i d k)
  where
    expires : Post Any (λ _. Kept db) (expire_intent now id db)
    expires =
        forget _ (
          Apart-claim_in intent_rows (Kept db) (λ t d k. k) id (is_stale now) expire db
            (refl, refl))

-- What a call did to the requests: it added none, or one within the caps of its mandate.
abbrev pub AddsWithin : Calendar → ℕ → Db → ℕ × AgentRequest → Db → Type 0
AddsWithin cal id db r d = (d.agent_requests ≡ db.agent_requests) ⊎ IsWithin cal id r.1 d

module _ (env : Env) (l : Limits) (cal : Calendar) (ctx : Caller) (dto : AgentDto)
    (key : Option Text) (new_id : ℕ) where
  stored :
      (m : Mandate) (i : Intent) (db d : Db)
      → find dto.authorization_id d.agent_authorizations ≡ some m
      → i.amount ≤ m.per_tx_cap
      → usage dto.authorization_id none cal.day d + i.amount ≤ m.daily_cap
      → usage dto.authorization_id none cal.month d + i.amount ≤ m.monthly_cap
      → Post Any
          (AddsWithin cal dto.authorization_id db)
          (store_request env l m.user_id ctx.business_id dto i key new_id d)
  unfolding store_request create_in ◌>>◌ ◌>>=◌ next pure usage
  stored m i db d at per day month = returns (
      inr (record {
        mandate = m;
        at = at;
        per_tx = per;
        daily = omega (
          arith,
          day,
          sum_amount-insert (is_used dto.authorization_id none cal.day) new_id _ d.agent_requests,
        );
        monthly = omega (
          arith,
          month,
          sum_amount-insert (is_used dto.authorization_id none cal.month) new_id _ d.agent_requests,
        );
      }))

  ask_user-AddsWithin :
      (db : Db)
      → Post Any (AddsWithin cal dto.authorization_id db) (ask_user env l cal ctx dto key new_id db)
  unfolding ask_user
  ask_user-AddsWithin db = Post-gets _ _ db (
      Post-or_raise _ (find dto.authorization_id db.agent_authorizations) _ db tt λ m at.
        Post-check _ _ _ db tt λ _.
          Post-bind (own_intent env.now ctx.business_id dto.payment_intent_id (some true)) _ db
            (own_intent-Kept env.now ctx.business_id dto.payment_intent_id (some true) db)
            λ i d (requests, mandates). Post-check _ _ _ d tt λ _.
              Post-then (check_caps env.now cal dto.authorization_id m i.amount none) _ d
                (check_caps-returns env.now cal dto.authorization_id m i.amount d)
                λ _ d' (same, per, day, month). Post-gets _ _ d' (
                  subst
                    (λ x. Post Any (AddsWithin cal dto.authorization_id db) (
                      or_else (open_request dto.payment_intent_id x)
                        (store_request env l m.user_id ctx.business_id dto i key new_id) x))
                    (sym same)
                    (go m i d requests (ap (find dto.authorization_id) mandates ∙ at) per day month
                      (open_request dto.payment_intent_id d))))
    where
      go :
          (m : Mandate) (i : Intent) (d : Db)
          → d.agent_requests ≡ db.agent_requests
          → find dto.authorization_id d.agent_authorizations ≡ some m
          → i.amount ≤ m.per_tx_cap
          → usage dto.authorization_id none cal.day d + i.amount ≤ m.daily_cap
          → usage dto.authorization_id none cal.month d + i.amount ≤ m.monthly_cap
          → (o : Option (ℕ × AgentRequest))
          → Post Any
              (AddsWithin cal dto.authorization_id db)
              (or_else o (store_request env l m.user_id ctx.business_id dto i key new_id) d)
      go m i d same at per day month none = stored m i db d at per day month
      go m i d same at per day month (some r) = Post-pure r d (inl same)

-- When `createAgentRequest` returns, it has added no request, or the one that it returns is of at
-- most the per-payment cap of its mandate, and the requests under the mandate that count, this one
-- too, are together within the daily cap for the day and within the monthly cap for the month.
pub create_agent_request-AddsWithin :
    (env : Env) (l : Limits) (cal : Calendar) (ctx : Caller) (dto : AgentDto) (idem : Option Text)
    (new_id : ℕ) (db : Db)
    → Post Any
        (AddsWithin cal dto.authorization_id db)
        (create_agent_request env l cal ctx dto idem new_id db)
unfolding create_agent_request ensure
create_agent_request-AddsWithin env l cal ctx dto idem new_id db = Post-check _ _ _ db tt λ _.
    Post-check _ _ _ db tt
      λ _. Post-gets _ _ db (go (keyed_request ctx.business_id (given idem) db))
  where
    go :
        (o : Option (ℕ × AgentRequest))
        → Post Any
            (AddsWithin cal dto.authorization_id db)
            (or_else o (ask_user env l cal ctx dto (given idem) new_id) db)
    go none = ask_user-AddsWithin env l cal ctx dto (given idem) new_id db
    go (some r) = Post-pure r db (inl refl)
