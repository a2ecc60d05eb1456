-- ===== src/AgentPayments/StaleExamples.antt =====
-- Tests and examples of two refunds that have read the same row.
use farm_backend.Prelude.{◌≡◌, ◌≢◌, ◌-◌, refl, arith, true, none, some}
use farm_backend.Prelude.Int.{◌+ℤ◌, ◌-ℤ◌, negate}
use farm_backend.Prelude.Table.{find, find_first, modify, insert}
use farm_backend.Store.{
  Db, PaymentRefund, ok, adjust_wallet, write_wallet, debit_wallet, debit_row, create_transaction,
  create_entry, claim_in, claim_row, create_in, transaction, commit, pure, gets, or_raise, raise_if,
  next, ◌>>=◌, ◌>>◌,
}
use farm_backend.Store.Rules.{Refuses}
use farm_backend.Escrow.{active_wallet}
use farm_backend.AgentPayments.Tables.{r2, is_at}
use farm_backend.AgentPayments.Refund.{
  Refunding, RefundDto, refunding, asked_amount, refund_payment_tx, is_as_read, move_if_live,
  move_refund, payer_wallet,
}
use farm_backend.AgentPayments.Stale.{stale_refund-Refuses}
use farm_backend.AgentPayments.Examples.{shop, shop_key, a_quarter, paid_intent}
use farm_backend.Fixture.{env}

-- 5 of 20 FARM are given back.
abbrev first_refund : Refunding
first_refund =
    refunding 1 a_quarter none paid_intent
      (asked_amount (r2 (paid_intent.amount - paid_intent.amount_refunded)) a_quarter.amount)

abbrev after_first : Db
after_first = (transaction (refund_payment_tx env shop_key 7 first_refund) shop).1

abbrev first_row : PaymentRefund
first_row = record {
  intent_id = 1;
  business_id = 5;
  created_by = none;
  live_mode = true;
  amount = 500_000_000;
  reason = none;
  transaction_id = some env.new_transaction;
  idempotency_key = none;
}

first_returns :
    transaction (refund_payment_tx env shop_key 7 first_refund) shop
    ≡ (ok (7, first_row), after_first)
unfolding refund_payment_tx is_as_read is_at r2 move_if_live move_refund payer_wallet active_wallet
    adjust_wallet write_wallet debit_wallet debit_row create_transaction create_entry claim_in
    claim_row create_in transaction commit pure gets or_raise raise_if next ◌>>=◌ ◌>>◌ find
    find_first modify insert ◌+ℤ◌ ◌-ℤ◌ negate
first_returns = refl

a_quarter_is_something :
    asked_amount (r2 (paid_intent.amount - paid_intent.amount_refunded)) a_quarter.amount ≢ 0
unfolding r2
a_quarter_is_something e = omega (arith, e)

-- Another caller has read the row before, and asks for the whole payment.
abbrev the_rest : RefundDto
the_rest = record { amount = none; reason = none }

stale_refund-Refuses_example : Refuses after_first (
    transaction
      (refund_payment_tx env shop_key 8 (refunding 1 the_rest none paid_intent 2_000_000_000))
      after_first)
stale_refund-Refuses_example =
    stale_refund-Refuses env env shop_key shop_key 7 8 1 2_000_000_000 0 a_quarter the_rest none
      none paid_intent paid_intent (7, first_row) shop after_first after_first refl
      a_quarter_is_something refl first_returns refl
