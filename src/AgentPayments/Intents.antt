-- ===== src/AgentPayments/Intents.antt =====
-- `createIntent`, `expireIntents`, `ownIntent`, `cancelIntent` and `simulateIntent`.
use farm_backend.Prelude.{
  ℕ, ◌+◌, ◌*◌, min, max, ⊤, Bool, true, false, not, Option, none, some, ◌&&◌, ◌||◌, ◌==◌, ltb, leb,
  take,
}
use farm_backend.Prelude.Int.{ℤ, pos_part}
use farm_backend.Prelude.Text.{Text}
use farm_backend.Prelude.Table.{find, find_first}
use farm_backend.Store.{
  Db, Intent, requires_payment, succeeded, expired, canceled, AgentRequest, AgentStatus, awaiting,
  withdrawn, Action, bad_request, not_found, conflict, pure, gets, or_raise, raise_if, claim_in,
  create_in, update_where, ◌>>=◌, ◌>>◌,
}
use farm_backend.Escrow.Env.{Env, given}
use farm_backend.AgentPayments.Tables.{
  Limits, ensure, Caller, r2, has_key, is_at, intent_rows, agent_rows,
}

pub record IntentDto : Type 0 where
  pub amount : ℤ
  pub description : Option Text
  pub reference : Option Text
  pub expires_in_minutes : Option ℕ

abbrev pub cut : ℕ → Option Text → Option Text
cut n none = none
cut n (some t) = some (take n t)

abbrev pub minutes_or : ℕ → Option ℕ → ℕ
minutes_or d none = d
minutes_or d (some m) = m

-- At least 5 minutes and at most 7 days.
abbrev pub intent_ttl : Limits → Option ℕ → ℕ
intent_ttl l m = min (max (minutes_or l.intent_ttl_min m) 5) 10_080

abbrev pub new_intent : Env → Limits → Caller → IntentDto → Option Text → ℕ → Intent
new_intent env l ctx dto key amount = record {
  business_id = ctx.business_id;
  created_by = ctx.actor_user_id;
  live_mode = ctx.live;
  amount = amount;
  description = cut 255 dto.description;
  reference = cut 100 dto.reference;
  status = requires_payment;
  payer_user_id = none;
  transaction_reference = none;
  amount_refunded = 0;
  idempotency_key = key;
  expires_at = env.now + intent_ttl l dto.expires_in_minutes * 60_000;
  paid_at = none;
  canceled_at = none;
}

unfoldable pub keyed_intent : ℕ → Option Text → Db → Option (ℕ × Intent)
keyed_intent business_id none db = none
keyed_intent business_id (some key) db =
    find_first (λ (i : Intent). i.business_id == business_id && has_key key i.idempotency_key)
      db.payment_intents

unfoldable pub answer_intent : Option (ℕ × Intent) → ℕ → ℕ → Intent → Action (ℕ × Intent)
answer_intent none amount new_id row = create_in intent_rows new_id row >> pure (new_id, row)
answer_intent (some i) amount new_id row =
    raise_if (not (i.1.amount == amount))
      (conflict "Idempotency-Key was used with different parameters")
    >> pure i

-- 1 to 1,000,000,000 FARM
abbrev pub bad_amount : ℕ → Bool
bad_amount amount = ltb amount 100_000_000 || ltb 100_000_000_000_000_000 amount

unfoldable pub create_intent :
    Env → Limits → Caller → IntentDto → Option Text → ℕ → Action (ℕ × Intent)
unfolding keyed_intent answer_intent
create_intent env l ctx dto idem new_id = do
  ensure l
  let amount = r2 (pos_part dto.amount)
  raise_if (bad_amount amount) (bad_request "amount must be between 1 and 1,000,000,000 FARM")
  found ← gets (keyed_intent ctx.business_id (given idem))
  answer_intent found amount new_id (new_intent env l ctx dto (given idem) amount)

abbrev pub is_stale : ℕ → Intent → Bool
is_stale now i = is_at i.status requires_payment && leb i.expires_at now

abbrev pub expire : Intent → Intent
expire i = record i { status = expired }

-- `expireIntents({ id })`
unfoldable pub expire_intent : ℕ → ℕ → Action Bool
expire_intent now id = claim_in intent_rows id (is_stale now) expire

-- `expireIntents({ business_id })`, before `listIntents` reads
unfoldable pub expire_intents : ℕ → ℕ → Action ⊤
expire_intents now business_id =
    update_where intent_rows (λ i. i.business_id == business_id && is_stale now i) expire

abbrev pub wrong_mode : Option Bool → Bool → Bool
wrong_mode none live = false
wrong_mode (some true) live = not live
wrong_mode (some false) live = live

unfoldable pub own_intent : ℕ → ℕ → ℕ → Option Bool → Action Intent
unfolding expire_intent
own_intent now business_id id live = do
  expire_intent now id
  found ← gets (λ db. find id db.payment_intents)
  i ← or_raise (not_found "Payment intent not found") found
  raise_if (not (i.business_id == business_id) || wrong_mode live i.live_mode)
      (not_found "Payment intent not found")
  pure i

abbrev pub cancel_unpaid : ℕ → Intent → Intent
cancel_unpaid now i = record i { status = canceled; canceled_at = some now }

unfoldable pub is_awaiting : AgentStatus → Bool
is_awaiting awaiting = true
is_awaiting _ = false

abbrev pub withdraw : ℕ → AgentRequest → AgentRequest
withdraw now r = record r { status = withdrawn; decided_at = some now }

unfoldable pub cancel_intent : ℕ → ℕ → ℕ → Option Bool → Action Intent
unfolding own_intent is_awaiting
cancel_intent now business_id id live = do
  own_intent now business_id id live
  claimed ← claim_in intent_rows id (λ i. is_at i.status requires_payment) (cancel_unpaid now)
  raise_if (not claimed) (conflict "Only unpaid intents can be canceled")
  update_where agent_rows (λ r. r.intent_id == id && is_awaiting r.status) (withdraw now)
  own_intent now business_id id none

abbrev pub mark_paid : ℕ → Intent → Intent
mark_paid now i = record i { status = succeeded; paid_at = some now }

-- A sandbox intent is marked as paid; no money moves.
unfoldable pub simulate_intent : ℕ → ℕ → ℕ → Action Intent
unfolding own_intent
simulate_intent now business_id id = do
  own_intent now business_id id (some false)
  claimed ←
      claim_in intent_rows id (λ i. not i.live_mode && is_at i.status requires_payment)
        (mark_paid now)
  raise_if (not claimed) (conflict "Intent is not payable")
  own_intent now business_id id none
