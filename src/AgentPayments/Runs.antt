-- ===== src/AgentPayments/Runs.antt =====
-- The service over time: any handlers, one after the other, by anyone.
use farm_backend.Prelude.{ℕ, ◌≤◌, ◌≡◌, sym, Bool, Option, some, subst}
use farm_backend.Prelude.Text.{Text}
use farm_backend.Prelude.Table.{find}
use farm_backend.Store.{Db, Intent}
use farm_backend.Store.Side.{last}
use farm_backend.Store.Every.{Every, Every-find}
use farm_backend.Escrow.Env.{Env}
use farm_backend.AgentPayments.Tables.{Limits, Caller}
use farm_backend.AgentPayments.Intents.{
  IntentDto, create_intent, expire_intents, cancel_intent, simulate_intent, own_intent,
}
use farm_backend.AgentPayments.Pay.{Channel, pay_intent}
use farm_backend.AgentPayments.Refund.{RefundDto, refund, refund_from_dashboard}
use farm_backend.AgentPayments.Mandates.{MandateDto, create_mandate, revoke_mandate, Calendar}
use farm_backend.AgentPayments.Agents.{
  AgentDto, create_agent_request, reject_agent_request, expire_requests, confirm_request,
}
use farm_backend.AgentPayments.Fair.{
  IsFair, Fair, own_intent-KeepsFair, expire_intents-KeepsFair, create_intent-KeepsFair,
  cancel_intent-KeepsFair, simulate_intent-KeepsFair,
}
use farm_backend.AgentPayments.Served.{pay_intent-KeepsFair}
use farm_backend.AgentPayments.Bounded.{refund-KeepsFair, refund_from_dashboard-KeepsFair}
use farm_backend.AgentPayments.Mandated.{
  create_mandate-KeepsFair, revoke_mandate-KeepsFair, create_agent_request-KeepsFair,
  reject_agent_request-KeepsFair, expire_requests-KeepsFair, confirm_request-KeepsFair,
}

-- One call, with whatever arguments, returning or raising; or code that leaves the intents alone.
pub data Call (d : Db) : Db → Type 0 where
  creating :
      (env : Env) (l : Limits) (ctx : Caller) (dto : IntentDto) (idem : Option Text) (new_id : ℕ)
      → Call d (create_intent env l ctx dto idem new_id d).1
  listing : (now business_id : ℕ) → Call d (expire_intents now business_id d).1
  reading :
      (now business_id id : ℕ) (live : Option Bool)
      → Call d (own_intent now business_id id live d).1
  canceling :
      (now business_id id : ℕ) (live : Option Bool)
      → Call d (cancel_intent now business_id id live d).1
  simulating : (now business_id id : ℕ) → Call d (simulate_intent now business_id id d).1
  paying :
      (env : Env) (ch : Channel) (payer_id id : ℕ) (pin : Option Text)
      → Call d (pay_intent env ch payer_id id pin d).1
  refunding_by_key :
      (env : Env) (ctx : Caller) (new_id : ℕ) (l : Limits) (id : ℕ) (dto : RefundDto)
      (idem : Option Text)
      → Call d (refund env ctx new_id l id dto idem d).1
  refunding_by_hand :
      (env : Env) (l : Limits) (user_id new_id id : ℕ) (dto : RefundDto) (pin : Text)
      (idem : Option Text)
      → Call d (refund_from_dashboard env l user_id new_id id dto pin idem d).1
  mandating :
      (env : Env) (l : Limits) (user_id : ℕ) (dto : MandateDto) (new_id : ℕ)
      → Call d (create_mandate env l user_id dto new_id d).1
  revoking : (now user_id id : ℕ) → Call d (revoke_mandate now user_id id d).1
  requesting :
      (env : Env) (l : Limits) (cal : Calendar) (ctx : Caller) (dto : AgentDto) (idem : Option Text)
      (new_id : ℕ)
      → Call d (create_agent_request env l cal ctx dto idem new_id d).1
  rejecting : (now user_id id : ℕ) → Call d (reject_agent_request now user_id id d).1
  sweeping : (now user_id : ℕ) → Call d (expire_requests now user_id d).1
  confirming :
      (env : Env) (cal : Calendar) (ch : Channel) (user_id id : ℕ) (pin : Option Text)
      → Call d (confirm_request env cal ch user_id id pin d).1
  other_code : {d' : Db} → d'.payment_intents ≡ d.payment_intents → Call d d'

pub data Runs (start : Db) : Db → Type 0 where
  idle : Runs start start
  calls : {d d' : Db} → Runs start d → Call d d' → Runs start d'

Call-Fair : (d d' : Db) → Call d d' → Fair d → Fair d'
Call-Fair d d' (creating env l ctx dto idem new_id) h =
    last _ (create_intent-KeepsFair env l ctx dto idem new_id d h)
Call-Fair d d' (listing now b) h = last _ (expire_intents-KeepsFair now b d h)
Call-Fair d d' (reading now b id live) h = last _ (own_intent-KeepsFair now b id live d h)
Call-Fair d d' (canceling now b id live) h = last _ (cancel_intent-KeepsFair now b id live d h)
Call-Fair d d' (simulating now b id) h = last _ (simulate_intent-KeepsFair now b id d h)
Call-Fair d d' (paying env ch payer id pin) h =
    last _ (pay_intent-KeepsFair env ch payer id pin d h)
Call-Fair d d' (refunding_by_key env ctx new_id l id dto idem) h =
    last _ (refund-KeepsFair env ctx new_id l id dto idem d h)
Call-Fair d d' (refunding_by_hand env l user_id new_id id dto pin idem) h =
    last _ (refund_from_dashboard-KeepsFair env l user_id new_id id dto pin idem d h)
Call-Fair d d' (mandating env l user_id dto new_id) h =
    last _ (create_mandate-KeepsFair env l user_id dto new_id d h)
Call-Fair d d' (revoking now user_id id) h = last _ (revoke_mandate-KeepsFair now user_id id d h)
Call-Fair d d' (requesting env l cal ctx dto idem new_id) h =
    last _ (create_agent_request-KeepsFair env l cal ctx dto idem new_id d h)
Call-Fair d d' (rejecting now user_id id) h =
    last _ (reject_agent_request-KeepsFair now user_id id d h)
Call-Fair d d' (sweeping now user_id) h = last _ (expire_requests-KeepsFair now user_id d h)
Call-Fair d d' (confirming env cal ch user_id id pin) h =
    last _ (confirm_request-KeepsFair env cal ch user_id id pin d h)
Call-Fair d d' (other_code same) h = subst (Every IsFair) (sym same) h

Runs-Fair : (start db : Db) → Runs start db → Fair start → Fair db
Runs-Fair start db idle h = h
Runs-Fair start db (calls {d = d} before call) h = Call-Fair d db call (Runs-Fair start d before h)

-- Start from payment intents whose amounts are whole hundredths of a FARM and which are refunded
-- to at most their amount. Whatever calls of the service then follow, in any order, by anyone,
-- returning or raising, with code in between that leaves the intents alone, no intent is ever
-- refunded beyond its amount.
pub never_over_refunded :
    (start db : Db) (id : ℕ) (i : Intent)
    → Fair start
    → Runs start db
    → find id db.payment_intents ≡ some i
    → i.amount_refunded ≤ i.amount
never_over_refunded start db id i h run found =
    (Every-find IsFair id db.payment_intents (Runs-Fair start db run h) found).bounded
