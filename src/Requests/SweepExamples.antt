-- ===== src/Requests/SweepExamples.antt =====
-- Tests and examples of the sweeps of requests for money.
use farm_backend.Prelude.{◌≡◌, ◌≢◌, ◌≤◌, refl, arith, some, [], ◌∷◌, length, take}
use farm_backend.Prelude.Int.{◌+ℤ◌, ◌-ℤ◌, negate}
use farm_backend.Fees.{
  compute_fee, exact_fee, round_div, default_rule, default_percent, fee_defaults,
}
use farm_backend.Prelude.Table.{find, HasKeys, modify, insert}
use farm_backend.Store.{
  Db, MoneyRequest, requested, paid_out, lapsed, adjust_wallet, write_wallet, create_transaction,
  update_transaction, write_transaction, create_entry, transaction, commit, pure, gets, raise,
  or_raise, raise_if, next, update_in, write_in, ◌>>=◌, ◌>>◌,
}
use farm_backend.Requests.Service.{transfer_service, is_requested}
use farm_backend.Requests.Accept.{
  wallet_at, pay_request, check_expiry, accept_open, refuse_expired, accept_tx,
}
use farm_backend.Requests.Close.{is_due, rows_where, expire_transfers, expire_payments}
use farm_backend.Requests.Settled.{accepted, here}
use farm_backend.Requests.Interleaved.{Sweep, all_done, next_row, meanwhile, swept-HasLeft}
use farm_backend.Requests.Expired.{Expires, expire_transfers-Expires, expire_payments-Expires}
use farm_backend.Requests.Examples.{requests, asked_of_amina}
use farm_backend.Fixture.{env}

requests-HasKeys : HasKeys requests.transfer_requests
unfolding HasKeys find
requests-HasKeys = (refl, tt)

one_there : find 9 requests.transfer_requests ≡ some asked_of_amina
unfolding find
one_there = refl

few : length (rows_where (is_due 86_400_000) requests.payment_requests) ≤ 500
unfolding rows_where is_due is_requested
few = omega arith

expire_transfers-Expires_example :
    (r' : MoneyRequest) × (find 9 (expire_transfers 86_400_000 requests).1.transfer_requests
      ≡ some r')
    × Expires 86_400_000 asked_of_amina r'
expire_transfers-Expires_example =
    expire_transfers-Expires 86_400_000 9 requests asked_of_amina requests-HasKeys one_there

expire_payments-Expires_example :
    (r' : MoneyRequest) × (find 9 (expire_payments 86_400_000 requests).1.payment_requests
      ≡ some r')
    × Expires 86_400_000 asked_of_amina r'
expire_payments-Expires_example =
    expire_payments-Expires 86_400_000 9 requests asked_of_amina requests-HasKeys few one_there

-- Amina accepts the request in the millisecond in which it ends, after the sweep has read it.
abbrev paid_meanwhile : Db
paid_meanwhile = (transaction (accept_tx transfer_service env 1 9) requests).1

abbrev paid_and_swept : Db
paid_and_swept =
    (update_in transfer_service.rows 9 (λ r. record r { status = lapsed }) paid_meanwhile).1

unchanged : rows_where (is_due 86_400_000) requests.transfer_requests ≡ (9, asked_of_amina) ∷ []
unfolding rows_where is_due is_requested
unchanged = refl

sweep :
    Sweep transfer_service
      (take 500 (rows_where (is_due 86_400_000) requests.transfer_requests))
      requests
      paid_and_swept
unfolding rows_where is_due is_requested
sweep = meanwhile (accepted env 1 9 here) (next_row all_done)

swept-HasLeft_example :
    (r' : MoneyRequest) × (find 9 paid_and_swept.transfer_requests ≡ some r')
    × (r'.status ≢ requested)
swept-HasLeft_example =
    swept-HasLeft transfer_service 86_400_000 500 9 86_400_000 asked_of_amina requests
      paid_and_swept one_there refl refl (omega arith) few sweep

-- The sweep has overwritten the status of a request that was paid, as the code does.
paid_is_overwritten :
    (find 9 paid_meanwhile.transfer_requests
      ≡ some (record asked_of_amina {
        status = paid_out;
        transaction_id = some env.new_transaction;
        accepted_at = some env.now;
        completed_at = some env.now;
      }))
    × (find 9 paid_and_swept.transfer_requests
        ≡ some (record asked_of_amina {
          status = lapsed;
          transaction_id = some env.new_transaction;
          accepted_at = some env.now;
          completed_at = some env.now;
        }))
unfolding find transaction accept_tx ◌>>=◌ gets or_raise ◌>>◌ raise_if is_requested pure ◌-ℤ◌ ◌+ℤ◌
    compute_fee round_div default_rule create_transaction adjust_wallet default_percent exact_fee
    fee_defaults negate insert modify accept_open check_expiry pay_request refuse_expired wallet_at
    commit create_entry next raise update_transaction write_transaction write_wallet update_in
    write_in
paid_is_overwritten = (refl, refl)
