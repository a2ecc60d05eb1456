-- ===== src/AgentPayments/Examples.antt =====
-- Tests and examples of payments to a business.
use farm_backend.Prelude.{◌≡◌, ◌≤◌, refl, arith, true, false, none, some, [], ◌∷◌}
use farm_backend.Prelude.Int.{pos, ◌+ℤ◌, ◌-ℤ◌, negate}
use farm_backend.Prelude.Text.{codes}
use farm_backend.Prelude.Table.{find, find_first, modify, insert}
use farm_backend.Store.{
  Db, Intent, Mandate, AgentRequest, requires_payment, succeeded, partially_returned, in_force,
  awaiting, adjust_wallet, write_wallet, debit_wallet, debit_row, create_transaction, create_entry,
  claim_in, claim_row, create_in, transaction, commit, pure, gets, or_raise, raise_if, next, ◌>>=◌,
  ◌>>◌,
}
use farm_backend.Store.Rules.{Post, Any}
use farm_backend.Store.Balance.{total}
use farm_backend.Store.Every.{Every}
use farm_backend.Escrow.{active_wallet}
use farm_backend.AgentPayments.Tables.{Limits, Caller, ensure, r2, is_at}
use farm_backend.AgentPayments.Intents.{own_intent, expire_intent}
use farm_backend.AgentPayments.Pay.{Channel}
use farm_backend.AgentPayments.Refund.{
  RefundDto, refund, keyed_refund, answer_refund, refund_checked, refund_payment_tx, is_as_read,
  move_if_live, move_refund, payer_wallet,
}
use farm_backend.AgentPayments.Mandates.{MandateDto, create_mandate, Calendar}
use farm_backend.AgentPayments.Agents.{
  AgentDto, is_in_progress, create_agent_request, confirm_request,
}
use farm_backend.AgentPayments.Caps.{
  IsOrdered, create_mandate-IsOrdered, AddsWithin, create_agent_request-AddsWithin,
}
use farm_backend.AgentPayments.Returned.{SameWallets, refund-Holds}
use farm_backend.AgentPayments.Confirm.{Free, Confirmed, confirm_request-Free}
use farm_backend.AgentPayments.Fair.{Fair}
use farm_backend.AgentPayments.Runs.{refunding_by_key, idle, calls, never_over_refunded}
use farm_backend.Fixture.{env, market, wallet}

-- 20 FARM that user 1 has paid to the business of user 2.
abbrev pub paid_intent : Intent
paid_intent = record {
  business_id = 5;
  created_by = none;
  live_mode = true;
  amount = 2_000_000_000;
  description = none;
  reference = none;
  status = succeeded;
  payer_user_id = some 1;
  transaction_reference = some 3;
  amount_refunded = 0;
  idempotency_key = none;
  expires_at = 90_000_000;
  paid_at = some 80_000_000;
  canceled_at = none;
}

abbrev mandate : Mandate
mandate = record {
  user_id = 1;
  business_id = 5;
  label = none;
  per_tx_cap = 3_000_000_000;
  daily_cap = 5_000_000_000;
  monthly_cap = 9_000_000_000;
  status = in_force;
  expires_at = 900_000_000;
  revoked_at = none;
}

abbrev asked : AgentRequest
asked = record {
  authorization_id = 4;
  user_id = 1;
  business_id = 5;
  intent_id = 2;
  amount = 2_000_000_000;
  status = awaiting;
  transaction_reference = none;
  idempotency_key = none;
  expires_at = 90_000_000;
  decided_at = none;
  created_at = 86_400_000;
}

-- The business has 30 FARM, all of them locked in an escrow.
abbrev pub shop : Db
shop = record market {
  wallets =
      (1, wallet 1 (pos 50_000_000_000) (pos 10_000_000_000))
      ∷ (2, wallet 2 (pos 3_000_000_000) (pos 3_000_000_000))
      ∷ [];
  businesses = (5, record { owner_user_id = 2; is_approved = true }) ∷ [];
  payment_intents =
      (1, paid_intent) ∷ (2, record paid_intent { status = requires_payment; paid_at = none }) ∷ [];
  agent_authorizations = (4, mandate) ∷ [];
  agent_requests = (6, asked) ∷ [];
}

abbrev limits : Limits
limits = record {
  enabled = true;
  max_per_tx = 5_000_000_000_000;
  max_monthly = 20_000_000_000_000;
  request_ttl_min = 30;
  intent_ttl_min = 60;
}

abbrev pub shop_key : Caller
shop_key = record { business_id = 5; owner_user_id = 2; actor_user_id = none; live = true }

abbrev pub a_quarter : RefundDto
a_quarter = record { amount = some (pos 500_000_000); reason = none }

abbrev after_refund : Db
after_refund = (refund env shop_key 7 limits 1 a_quarter none shop).1

abbrev partly_returned : Intent
partly_returned = record paid_intent { status = partially_returned; amount_refunded = 500_000_000 }

returned_at : find 1 after_refund.payment_intents ≡ some partly_returned
unfolding refund ensure keyed_refund answer_refund refund_checked own_intent expire_intent
    refund_payment_tx is_as_read is_at r2 move_if_live move_refund payer_wallet active_wallet
    adjust_wallet write_wallet debit_wallet debit_row create_transaction create_entry claim_in
    claim_row create_in transaction commit pure gets or_raise raise_if next ◌>>=◌ ◌>>◌ find
    find_first modify insert ◌+ℤ◌ ◌-ℤ◌ negate
returned_at = refl

-- The refund is paid out of FARM that an escrow has locked.
locked_is_spent :
    find 2 after_refund.wallets ≡ some (wallet 2 (pos 2_500_000_000) (pos 3_000_000_000))
unfolding refund ensure keyed_refund answer_refund refund_checked own_intent expire_intent
    refund_payment_tx is_as_read is_at r2 move_if_live move_refund payer_wallet active_wallet
    adjust_wallet write_wallet debit_wallet debit_row create_transaction create_entry claim_in
    claim_row create_in transaction commit pure gets or_raise raise_if next ◌>>=◌ ◌>>◌ find
    find_first modify insert ◌+ℤ◌ ◌-ℤ◌ negate
locked_is_spent = refl

shop-Fair : Fair shop
unfolding Every
shop-Fair = (
  record { whole = 2_000; asked = refl; back = 0; returned = refl; bounded = omega arith },
  (record { whole = 2_000; asked = refl; back = 0; returned = refl; bounded = omega arith }, tt),
)

never_over_refunded_example : 500_000_000 ≤ 2_000_000_000
never_over_refunded_example =
    never_over_refunded shop after_refund 1 partly_returned shop-Fair
      (calls idle (refunding_by_key env shop_key 7 limits 1 a_quarter none)) returned_at

refund-Holds_example :
    Post
      (SameWallets shop)
      (λ _ d. total d ≡ total shop)
      (refund env shop_key 7 limits 1 a_quarter none shop)
refund-Holds_example = refund-Holds env shop_key 7 limits 1 a_quarter none shop

abbrev mandate_dto : MandateDto
mandate_dto = record {
  business_id = 5;
  per_tx_cap = pos 3_000_000_000;
  daily_cap = pos 5_000_000_000;
  monthly_cap = pos 9_000_000_000;
  expires_in_days = 30;
  label = none;
  pin = codes "1234";
}

create_mandate-IsOrdered_example :
    Post Any
      (λ r d. (r.0 ≡ 8) × IsOrdered env.now limits r.1)
      (create_mandate env limits 1 mandate_dto 8 shop)
create_mandate-IsOrdered_example = create_mandate-IsOrdered env limits 1 8 mandate_dto shop

abbrev calendar : Calendar
calendar = record { day = 86_400_000; month = 0 }

abbrev agent_dto : AgentDto
agent_dto = record { authorization_id = 4; payment_intent_id = 2 }

-- Nobody has asked under the mandate yet.
abbrev unasked : Db
unasked = record shop { agent_requests = [] }

create_agent_request-AddsWithin_example :
    Post Any
      (AddsWithin calendar 4 unasked)
      (create_agent_request env limits calendar shop_key agent_dto none 9 unasked)
create_agent_request-AddsWithin_example =
    create_agent_request-AddsWithin env limits calendar shop_key agent_dto none 9 unasked

abbrev channel : Channel
channel = record {
  today = 0;
  merchant_pays = false;
  limits = limits;
  new_payment = 11;
  by_agent = true;
}

shop-Free : Free 6 shop
unfolding find is_in_progress
shop-Free = record { free = λ r found. ground arith }

confirm_request-Free_example :
    Post
      (Free 6)
      (Confirmed 6)
      (confirm_request env calendar channel 1 6 (some (codes "1234")) shop)
confirm_request-Free_example =
    confirm_request-Free env calendar channel 1 6 (some (codes "1234")) shop shop-Free
