-- ===== src/Requests/Examples.antt =====
-- Tests and examples of requests for money.
use farm_backend.Prelude.{◌≡◌, refl, false, none, some, [], ◌∷◌}
use farm_backend.Prelude.Int.{pos, ◌+ℤ◌, ◌-ℤ◌, negate, int_laws}
use farm_backend.Prelude.Text.{codes, text_eq}
use farm_backend.Prelude.Table.{find, modify, insert, sum_by}
use farm_backend.Fees.{
  compute_fee, exact_fee, round_div, default_rule, default_percent, fee_defaults,
}
use farm_backend.Auth.{verify_pin, pin_of, settle_pin}
use farm_backend.Store.{
  Db, MoneyRequest, requested, paid_out, ok, adjust_wallet, write_wallet, create_transaction,
  update_transaction, write_transaction, create_entry, update_user, write_user, transaction, commit,
  pure, gets, or_raise, raise_if, next, update_in, write_in, ◌>>=◌, ◌>>◌,
}
use farm_backend.Store.Rules.{Post, Refuses}
use farm_backend.Store.Ledger.{SameMoney}
use farm_backend.Escrow.{remaining_amount}
use farm_backend.Escrow.Env.{Env, check_pin, authorize}
use farm_backend.Escrow.Debt.{Solvent, owed}
use farm_backend.Requests.Service.{transfer_service, is_requested}
use farm_backend.Requests.Ask.{AskDto, request_funds, create_request}
use farm_backend.Requests.Accept.{
  Accepted, wallet_at, pay_request, check_expiry, accept_open, accept_tx, accept_transfer,
  accept_payment,
}
use farm_backend.Requests.Close.{reject_request, cancel_request}
use farm_backend.Requests.Sound.{IsSound, request_funds-IsSound, create_request-IsSound}
use farm_backend.Requests.Conserve.{LosesFee, accept_transfer-LosesFee, accept_payment-LosesFee}
use farm_backend.Requests.Settled.{Reach, turned_down, cancelled, here, settled-stays}
use farm_backend.Requests.Once.{accepted-once}
use farm_backend.Fixture.{env, market, with_pin_only, no_settings}

-- Brian asks Amina for 100 FARM.
abbrev pub asked_of_amina : MoneyRequest
asked_of_amina = record {
  request_reference = 4;
  requester_user_id = some 2;
  requester_wallet_id = some 2;
  payer_user_id = some 1;
  payer_wallet_id = some 1;
  amount = 10_000_000_000;
  status = requested;
  transaction_id = none;
  expires_at = some 86_400_000;
  accepted_at = none;
  completed_at = none;
  rejected_at = none;
}

abbrev pub requests : Db
requests = record market {
  transfer_requests = (9, asked_of_amina) ∷ [];
  payment_requests = (9, asked_of_amina) ∷ [];
}

abbrev dto : AskDto
dto = record { payer_identifier = codes "amina"; amount = pos 700_000_000 }

requests-Solvent : Solvent requests
unfolding find owed sum_by remaining_amount
requests-Solvent = record { covered = λ k w found. grind int_laws }

-- A transfer costs 1 FARM.
abbrev costly : Env
costly = record env { rule = λ key. record (default_rule no_settings key) { flat = 100_000_000 } }

amina_pays :
    (accept_transfer costly 1 9 with_pin_only requests).0
    ≡ ok (record {
      amount = 10_000_000_000;
      fee = 100_000_000;
      request_reference = 4;
      requester_user_id = some 2;
      payer_balance = pos 39_900_000_000;
      requester_balance = pos 10_000_000_000;
    })
unfolding accept_transfer accept_tx accept_open check_expiry pay_request wallet_at is_requested
    authorize check_pin verify_pin pin_of settle_pin adjust_wallet write_wallet create_transaction
    update_transaction write_transaction create_entry update_user write_user update_in write_in
    transaction commit pure gets or_raise raise_if next ◌>>=◌ ◌>>◌ find modify insert compute_fee
    exact_fee round_div default_rule default_percent fee_defaults ◌+ℤ◌ ◌-ℤ◌ negate text_eq
amina_pays = refl

-- The fee leaves Amina's wallet and reaches no other.
fee_lost :
    sum_by (λ w. w.balance) (accept_transfer costly 1 9 with_pin_only requests).1.wallets
    ≡ pos 49_900_000_000
unfolding accept_transfer accept_tx accept_open check_expiry pay_request wallet_at is_requested
    authorize check_pin verify_pin pin_of settle_pin adjust_wallet write_wallet create_transaction
    update_transaction write_transaction create_entry update_user write_user update_in write_in
    transaction commit pure gets or_raise raise_if next ◌>>=◌ ◌>>◌ find modify insert compute_fee
    exact_fee round_div default_rule default_percent fee_defaults ◌+ℤ◌ ◌-ℤ◌ negate sum_by text_eq
fee_lost = refl

accept_transfer-LosesFee_example :
    Post
      (SameMoney requests)
      (LosesFee requests)
      (accept_transfer costly 1 9 with_pin_only requests)
accept_transfer-LosesFee_example =
    accept_transfer-LosesFee costly 1 9 with_pin_only requests requests-Solvent

accept_payment-LosesFee_example :
    Post
      (SameMoney requests)
      (LosesFee requests)
      (accept_payment costly 1 9 (codes "1234") requests)
accept_payment-LosesFee_example =
    accept_payment-LosesFee costly 1 9 (codes "1234") requests requests-Solvent

unused : find 12 requests.transfer_requests ≡ none
unfolding find
unused = refl

request_funds-IsSound_example :
    Post
      (λ d. d ≡ requests)
      (λ _ d. (r : MoneyRequest) × (find 12 d.transfer_requests ≡ some r) × IsSound env.now r)
      (request_funds env 12 2 dto requests)
request_funds-IsSound_example = request_funds-IsSound env 12 2 dto requests unused

create_request-IsSound_example :
    Post
      (λ d. d ≡ requests)
      (λ _ d. (r : MoneyRequest) × (find 12 d.payment_requests ≡ some r) × IsSound env.now r)
      (create_request env 12 2 dto requests)
create_request-IsSound_example = create_request-IsSound env 12 2 dto requests unused

abbrev paid : Accepted
paid = record {
  amount = 10_000_000_000;
  fee = 100_000_000;
  request_reference = 4;
  requester_user_id = some 2;
  payer_balance = pos 39_900_000_000;
  requester_balance = pos 10_000_000_000;
}

abbrev after_payment : Db
after_payment = (transaction (accept_tx transfer_service costly 1 9) requests).1

payment_returns :
    transaction (accept_tx transfer_service costly 1 9) requests ≡ (ok paid, after_payment)
unfolding accept_tx accept_open check_expiry pay_request wallet_at is_requested adjust_wallet
    write_wallet create_transaction update_transaction write_transaction create_entry update_in
    write_in transaction commit pure gets or_raise raise_if next ◌>>=◌ ◌>>◌ find modify insert
    compute_fee exact_fee round_div default_rule default_percent fee_defaults ◌+ℤ◌ ◌-ℤ◌ negate
payment_returns = refl

-- Amina tries to reject the request, and Brian to call it off, before she pays again.
abbrev tried : Db
tried =
    (cancel_request transfer_service 2 9 (reject_request transfer_service 7 1 9 after_payment).1).1

then_tried : Reach transfer_service after_payment tried
then_tried = cancelled 2 9 (turned_down 7 1 9 here)

accepted-once_example : Refuses tried (transaction (accept_tx transfer_service env 1 9) tried)
accepted-once_example =
    accepted-once transfer_service 9 costly env 1 1 requests after_payment tried paid
      payment_returns then_tried

-- Two transactions that have both read the row as pending both pay.
paid_twice :
    sum_by
      (λ w. w.balance)
      (accept_open transfer_service costly 9 asked_of_amina
        (accept_open transfer_service costly 9 asked_of_amina requests).1).1.wallets
    ≡ pos 49_800_000_000
unfolding accept_open check_expiry pay_request wallet_at adjust_wallet write_wallet
    create_transaction update_transaction write_transaction create_entry update_in write_in pure
    gets or_raise raise_if next ◌>>=◌ ◌>>◌ find modify insert compute_fee exact_fee round_div
    default_rule default_percent fee_defaults ◌+ℤ◌ ◌-ℤ◌ negate sum_by
paid_twice = refl

abbrev closed_row : MoneyRequest
closed_row = record asked_of_amina { status = paid_out }

abbrev closed : Db
closed = record requests { transfer_requests = (9, closed_row) ∷ [] }

closed_at : find 9 closed.transfer_requests ≡ some closed_row
unfolding find
closed_at = refl

closed_row_settled : is_requested closed_row.status ≡ false
unfolding is_requested
closed_row_settled = refl

settled-stays_example :
    find 9 (cancel_request transfer_service 2 9 closed).1.transfer_requests ≡ some closed_row
settled-stays_example =
    settled-stays transfer_service 9 closed_row closed
      (cancel_request transfer_service 2 9 closed).1 closed_at closed_row_settled
      (cancelled 2 9 here)
