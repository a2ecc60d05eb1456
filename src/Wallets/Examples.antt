-- ===== src/Wallets/Examples.antt =====
-- Tests and an example of a transfer.
use farm_backend.Prelude.{◌≡◌, refl, arith, true}
use farm_backend.Prelude.Int.{pos, ◌+ℤ◌, ◌-ℤ◌, negate, int_laws}
use farm_backend.Prelude.Text.{codes, text_eq}
use farm_backend.Prelude.Table.{find, HasKeys, find_first, modify, insert, sum_by}
use farm_backend.Fees.{
  FeeKey, compute_fee, exact_fee, round_div, default_rule, default_percent, fee_defaults,
}
use farm_backend.Fees.Bounds.{fee-le-amount}
use farm_backend.Auth.{verify_pin, pin_of, settle_pin}
use farm_backend.Store.{
  ok, adjust_wallet, write_wallet, create_transaction, update_transaction, write_transaction,
  create_entry, update_user, write_user, transaction, commit, pure, gets, or_raise, raise_if, next,
  ◌>>=◌, ◌>>◌,
}
use farm_backend.Escrow.{active_wallet, platform_wallet, remaining_amount}
use farm_backend.Escrow.Debt.{Solvent, owed}
use farm_backend.Escrow.Settle.{Keeps}
use farm_backend.Wallets.Platform.{credit_found, credit_wallet, credit_admin, credit_platform}
use farm_backend.Wallets.Transfer.{
  SendDto, check_send_pin, authorize_send, recipient_user, recipient_wallet, counts, sent_since,
  just_sent, transfer_transaction, move_funds, send_from, send_tx, send_funds,
}
use farm_backend.Wallets.Conserve.{IsMerchantFair, send_funds-Keeps}
use farm_backend.Fixture.{env, market, with_pin_only, no_settings}

env-IsMerchantFair : IsMerchantFair env
unfolding default_rule default_percent fee_defaults
env-IsMerchantFair amount =
    fee-le-amount (default_rule no_settings FeeKey.merchant) amount 8 (omega arith) refl refl

market-Solvent : Solvent market
unfolding find owed sum_by remaining_amount
market-Solvent = record { covered = λ k w found. grind int_laws }

market-HasKeys : HasKeys market.wallets
unfolding HasKeys find
market-HasKeys = (refl, (refl, (refl, tt)))

-- 50 FARM from user 1 to user 2, who pays the merchant fee.
abbrev payment : SendDto
payment = record {
  recipient_identifier = codes "brian";
  amount = pos 5_000_000_000;
  proof = with_pin_only;
}

paid :
    (send_funds env 0 1 true payment market).0
    ≡ ok (record {
      amount = 5_000_000_000;
      fee = 0;
      merchant_fee = 50_000_000;
      sender_balance = pos 45_000_000_000;
      receiver_balance = pos 4_950_000_000;
    })
unfolding send_funds send_tx send_from move_funds transfer_transaction just_sent sent_since counts
    recipient_wallet recipient_user authorize_send check_send_pin verify_pin pin_of settle_pin
    credit_platform credit_admin credit_wallet credit_found active_wallet platform_wallet
    adjust_wallet write_wallet create_transaction update_transaction write_transaction create_entry
    update_user write_user transaction commit pure gets or_raise raise_if next ◌>>=◌ ◌>>◌ find
    find_first modify insert sum_by text_eq compute_fee exact_fee round_div default_rule
    default_percent fee_defaults ◌+ℤ◌ ◌-ℤ◌ negate
paid = refl

send_funds-Keeps_example : Keeps market (send_funds env 0 1 true payment market)
send_funds-Keeps_example =
    send_funds-Keeps env 0 1 true payment market env-IsMerchantFair market-Solvent market-HasKeys
