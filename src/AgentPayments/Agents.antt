-- ===== src/AgentPayments/Agents.antt =====
-- `createAgentRequest`, `rejectRequest`, `confirmRequest`, and the mark of expired requests in
-- `myRequests`.
use farm_backend.Prelude.{
  ℕ, ◌+◌, ◌*◌, min, ⊤, Bool, true, false, not, Option, none, some, ◌∷◌, ◌&&◌, ◌||◌, ◌==◌, leb,
  if◌then◌else◌,
}
use farm_backend.Prelude.Text.{Text, codes}
use farm_backend.Prelude.Table.{find, find_first}
use farm_backend.Store.{
  Db, Intent, requires_payment, AgentRequest, AgentStatus, awaiting, in_progress, confirmed,
  declined, timed_out, broken, Error, bad_request, forbidden, not_found, conflict, gone, Action,
  raise, pure, gets, or_raise, raise_if, rescue, claim_in, update_in, create_in, update_where,
  ◌>>=◌, ◌>>◌,
}
use farm_backend.Escrow.Env.{Env, given}
use farm_backend.AgentPayments.Tables.{Limits, ensure, Caller, has_key, is_at, agent_rows}
use farm_backend.AgentPayments.Intents.{own_intent, is_awaiting}
use farm_backend.AgentPayments.Pay.{Channel, pay_intent}
use farm_backend.AgentPayments.Mandates.{Calendar, check_caps}

unfoldable pub is_in_progress : AgentStatus → Bool
is_in_progress in_progress = true
is_in_progress _ = false

abbrev pub is_confirmed : AgentStatus → Bool
is_confirmed confirmed = true
is_confirmed _ = false

unfoldable pub keyed_request : ℕ → Option Text → Db → Option (ℕ × AgentRequest)
keyed_request business_id none db = none
keyed_request business_id (some key) db =
    find_first (λ (r : AgentRequest). r.business_id == business_id && has_key key r.idempotency_key)
      db.agent_requests

-- A request for the intent that is not decided.
unfoldable pub open_request : ℕ → Db → Option (ℕ × AgentRequest)
unfolding is_awaiting is_in_progress
open_request intent_id db =
    find_first
      (λ (r : AgentRequest).
        r.intent_id == intent_id && (is_awaiting r.status || is_in_progress r.status))
      db.agent_requests

abbrev pub or_else : {A : Type 0} → Option A → Action A → Action A
or_else none k = k
or_else (some a) k = pure a

pub record AgentDto : Type 0 where
  pub authorization_id : ℕ
  pub payment_intent_id : ℕ

module _ (env : Env) (l : Limits) where
  unfoldable pub store_request :
      ℕ → ℕ → AgentDto → Intent → Option Text → ℕ → Action (ℕ × AgentRequest)
  store_request user_id business_id dto i key new_id = do
    let row : AgentRequest = record {
      authorization_id = dto.authorization_id;
      user_id = user_id;
      business_id = business_id;
      intent_id = dto.payment_intent_id;
      amount = i.amount;
      status = awaiting;
      transaction_reference = none;
      idempotency_key = key;
      expires_at = min (env.now + l.request_ttl_min * 60_000) i.expires_at;
      decided_at = none;
      created_at = env.now;
    }
    create_in agent_rows new_id row
    pure (new_id, row)

  unfoldable pub ask_user :
      Calendar → Caller → AgentDto → Option Text → ℕ → Action (ℕ × AgentRequest)
  unfolding open_request store_request
  ask_user cal ctx dto key new_id = do
    found ← gets (λ db. find dto.authorization_id db.agent_authorizations)
    m ← or_raise (not_found "Authorization not found") found
    raise_if (not (m.business_id == ctx.business_id)) (not_found "Authorization not found")
    i ← own_intent env.now ctx.business_id dto.payment_intent_id (some true)
    raise_if (not (is_at i.status requires_payment)) (conflict "Payment intent is not payable")
    check_caps env.now cal dto.authorization_id m i.amount none
    undecided ← gets (open_request dto.payment_intent_id)
    or_else undecided (store_request m.user_id ctx.business_id dto i key new_id)

  unfoldable pub create_agent_request :
      Calendar → Caller → AgentDto → Option Text → ℕ → Action (ℕ × AgentRequest)
  unfolding keyed_request ask_user
  create_agent_request cal ctx dto idem new_id = do
    ensure l
    raise_if (not ctx.live) (bad_request "Agent payment requests need a live key")
    found ← gets (keyed_request ctx.business_id (given idem))
    or_else found (ask_user cal ctx dto (given idem) new_id)

abbrev pub decide : AgentStatus → ℕ → AgentRequest → AgentRequest
decide status now r = record r { status = status; decided_at = some now }

-- `rejectRequest`
unfoldable pub reject_agent_request : ℕ → ℕ → ℕ → Action AgentRequest
unfolding is_awaiting
reject_agent_request now user_id id = do
  claimed ←
      claim_in agent_rows id (λ r. r.user_id == user_id && is_awaiting r.status)
        (decide declined now)
  raise_if (not claimed) (not_found "Pending request not found")
  found ← gets (λ db. find id db.agent_requests)
  or_raise (not_found "Pending request not found") found

-- The first statement of `myRequests`.
unfoldable pub expire_requests : ℕ → ℕ → Action ⊤
unfolding is_awaiting
expire_requests now user_id =
    update_where agent_rows
      (λ r. r.user_id == user_id && is_awaiting r.status && leb r.expires_at now)
      (λ r. record r { status = timed_out })

-- `/PIN/i.test(msg)`
abbrev pub is_either : ℕ → ℕ → ℕ → Bool
is_either c upper lower = c == upper || c == lower

unfoldable pub names_pin : Text → Bool
names_pin (a ∷ b ∷ c ∷ s) =
    is_either a 80 112 && is_either b 73 105 && is_either c 78 110 || names_pin (b ∷ c ∷ s)
names_pin _ = false

-- Errors after which the user may not try again.
unfoldable pub is_last_error : Error → Bool
unfolding names_pin
is_last_error (gone message) = true
is_last_error (forbidden message) = not (names_pin (codes message))
is_last_error _ = false

abbrev pub fail : Bool → ℕ → AgentRequest → AgentRequest
fail true now r = record r { status = broken; decided_at = some now }
fail false now r = record r { status = awaiting }

abbrev pub confirm : ℕ → Option ℕ → AgentRequest → AgentRequest
confirm now ref r = record r {
  status = confirmed;
  decided_at = some now;
  transaction_reference = ref;
}

module _ (env : Env) (cal : Calendar) (ch : Channel) (user_id id : ℕ) where
  unfoldable pub pay_request_of : Option Text → AgentRequest → Action AgentRequest
  pay_request_of pin r = do
    found ← gets (λ db. find r.authorization_id db.agent_authorizations)
    m ← or_raise (forbidden "The authorization is not active") found
    check_caps env.now cal r.authorization_id m r.amount (some id)
    paid ← pay_intent env ch user_id r.intent_id pin
    update_in agent_rows id (confirm env.now paid.transaction_reference)

  unfoldable pub fail_request : Error → Action AgentRequest
  unfolding is_last_error
  fail_request e = update_in agent_rows id (fail (is_last_error e) env.now) >> raise e

  unfoldable pub lapse_request : Action AgentRequest
  unfolding is_awaiting
  lapse_request = do
    claim_in agent_rows id (λ r. is_awaiting r.status) (λ r. record r { status = timed_out })
    raise (gone "This request has expired")

  unfoldable pub claim_request : Option Text → AgentRequest → Action AgentRequest
  unfolding is_awaiting pay_request_of fail_request
  claim_request pin r = do
    claimed ←
        claim_in agent_rows id (λ r. is_awaiting r.status) (λ r. record r { status = in_progress })
    raise_if (not claimed) (conflict "Request is already being processed")
    rescue (pay_request_of pin r) fail_request

  unfoldable pub confirm_open : Option Text → AgentRequest → Action AgentRequest
  unfolding is_awaiting lapse_request claim_request
  confirm_open pin r = do
    raise_if (not (is_awaiting r.status)) (conflict "Request is not pending")
    if leb r.expires_at env.now then lapse_request else claim_request pin r

  -- `confirmRequest`
  unfoldable pub confirm_request : Option Text → Action AgentRequest
  unfolding confirm_open
  confirm_request pin = do
    ensure ch.limits
    found ← gets (λ db. find id db.agent_requests)
    r ← or_raise (not_found "Request not found") found
    raise_if (not (r.user_id == user_id)) (not_found "Request not found")
    if is_confirmed r.status then pure r else confirm_open pin r
