-- ===== src/Requests/Accept.antt =====
-- `acceptAndTransfer` of both services.
use farm_backend.Prelude.{ℕ, ⊤, Bool, false, not, Option, none, some, ltb, if◌then◌else◌}
use farm_backend.Prelude.Int.{ℤ, pos, negate, ◌+ℤ◌, ◌-ℤ◌, ltb_ℤ}
use farm_backend.Prelude.Text.{Text}
use farm_backend.Prelude.Table.{find}
use farm_backend.Auth.{verify_pin}
use farm_backend.Store.{
  Db, Wallet, MoneyRequest, paid_out, lapsed, Transaction, transfer, processing, debit, credit,
  no_metadata, Action, bad_request, forbidden, internal, raise, pure, gets, or_raise, raise_if,
  transaction, adjust_wallet, create_transaction, update_transaction, create_entry, update_in,
  ◌>>=◌, ◌>>◌,
}
use farm_backend.Escrow.Env.{Env, Proof, authorize}
use farm_backend.Escrow.{is_id, available}
use farm_backend.Wallets.{sent, transfer_fee_of}
use farm_backend.Requests.Service.{Service, transfer_service, payment_service, is_requested}

abbrev pub is_past : ℕ → Option ℕ → Bool
is_past now none = false
is_past now (some t) = ltb t now

abbrev pub lapse : MoneyRequest → MoneyRequest
lapse r = record r { status = lapsed }

abbrev pub with_id : ℕ → Option Wallet → Option (ℕ × Wallet)
with_id k none = none
with_id k (some w) = some (k, w)

-- The row that a nullable foreign key points to.
unfoldable pub wallet_at : Option ℕ → Db → Option (ℕ × Wallet)
wallet_at none db = none
wallet_at (some k) db = with_id k (find k db.wallets)

abbrev pub settle_request : ℕ → ℕ → MoneyRequest → MoneyRequest
settle_request txn now r = record r {
  status = paid_out;
  transaction_id = some txn;
  accepted_at = some now;
  completed_at = some now;
}

abbrev pub request_transaction : Env → ℕ → ℕ → ℕ → ℕ → ℕ → Transaction
request_transaction env id payer requester amount fee = record {
  reference = env.reference;
  sender_wallet_id = some payer;
  receiver_wallet_id = some requester;
  kind = transfer;
  status = processing;
  amount = amount;
  fee = fee;
  net_amount = pos amount -ℤ pos fee;
  metadata = record no_metadata { request_id = some id };
  created_at = env.now;
  processed_at = none;
}

pub record Accepted : Type 0 where
  pub amount : ℕ
  pub fee : ℕ
  pub request_reference : ℕ
  pub requester_user_id : Option ℕ
  pub payer_balance : ℤ
  pub requester_balance : ℤ

module _ (s : Service) (env : Env) where
  -- The writes, once both wallets are read.
  unfoldable pub pay_request : ℕ → MoneyRequest → ℕ × Wallet → ℕ × Wallet → ℕ → Action Accepted
  pay_request id r payer requester fee = do
    let out = pos r.amount +ℤ pos fee
    txn ←
        create_transaction env.new_transaction
          (request_transaction env id payer.0 requester.0 r.amount fee)
    from ← adjust_wallet payer.0 (negate out) (pos 0)
    to ← adjust_wallet requester.0 (pos r.amount) (pos 0)
    create_entry (record {
      transaction_id = some txn;
      wallet_id = payer.0;
      entry_type = debit;
      amount = out;
      balance_before = some payer.1.balance;
      balance_after = some (payer.1.balance -ℤ out);
    })
    create_entry (record {
      transaction_id = some txn;
      wallet_id = requester.0;
      entry_type = credit;
      amount = pos r.amount;
      balance_before = some requester.1.balance;
      balance_after = some (requester.1.balance +ℤ pos r.amount);
    })
    update_transaction txn (sent env.now)
    update_in s.rows id (settle_request txn env.now)
    pure (record {
      amount = r.amount;
      fee = fee;
      request_reference = r.request_reference;
      requester_user_id = r.requester_user_id;
      payer_balance = from.balance;
      requester_balance = to.balance;
    })

  -- A request that is past its time is marked, and then the exception undoes the mark.
  unfoldable pub refuse_expired : ℕ → Action ⊤
  refuse_expired id = update_in s.rows id lapse >> raise (bad_request "This request has expired")

  unfoldable pub check_expiry : ℕ → MoneyRequest → Action ⊤
  unfolding refuse_expired
  check_expiry id r = if is_past env.now r.expires_at then refuse_expired id else pure tt

  unfoldable pub accept_open : ℕ → MoneyRequest → Action Accepted
  unfolding wallet_at check_expiry pay_request
  accept_open id r = do
    check_expiry id r
    theirs ← gets (wallet_at r.payer_wallet_id)
    mine ← gets (wallet_at r.requester_wallet_id)
    payer ← or_raise s.no_payer_wallet theirs
    raise_if payer.1.is_frozen (forbidden "Your wallet is frozen. Contact support.")
    let fee = transfer_fee_of env r.amount
    raise_if (ltb_ℤ (available payer.1) (pos r.amount +ℤ pos fee))
        (bad_request "Insufficient balance.")
    requester ← or_raise (internal "Cannot read properties of null (reading 'id')") mine
    pay_request id r payer requester fee

  unfoldable pub accept_tx : ℕ → ℕ → Action Accepted
  unfolding accept_open
  accept_tx user_id id = do
    found ← gets (λ db. find id (s.rows.get db))
    r ← or_raise s.no_request found
    raise_if (not (is_id user_id r.payer_user_id))
        (forbidden "You are not authorized for this request")
    raise_if (not (is_requested r.status)) (bad_request "Request status is not pending")
    accept_open id r

-- `TransferRequestsService.acceptAndTransfer`
unfoldable pub accept_transfer : Env → ℕ → ℕ → Proof → Action Accepted
unfolding accept_tx
accept_transfer env user_id id proof =
    authorize env user_id proof >> transaction (accept_tx transfer_service env user_id id)

-- `PaymentRequestsService.acceptAndTransfer`
unfoldable pub accept_payment : Env → ℕ → ℕ → Text → Action Accepted
unfolding accept_tx
accept_payment env user_id id pin =
    verify_pin env.bcrypt user_id pin >> transaction (accept_tx payment_service env user_id id)
