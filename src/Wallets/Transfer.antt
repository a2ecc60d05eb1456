-- ===== src/Wallets/Transfer.antt =====
-- `WalletsService.sendFunds`.
use farm_backend.Prelude.{
  ℕ, ◌+◌, ⊤, Bool, true, false, not, Option, none, some, ◌&&◌, ◌||◌, ◌==◌, leb, if◌then◌else◌,
}
use farm_backend.Prelude.Int.{ℤ, pos, pos_part, negate, ◌+ℤ◌, ◌-ℤ◌, ltb_ℤ, leb_ℤ}
use farm_backend.Prelude.Number.{finite}
use farm_backend.Prelude.Text.{Text, text_eq}
use farm_backend.Prelude.Table.{find, find_first, sum_by}
use farm_backend.Fees.{FeeKey, compute_fee}
use farm_backend.Auth.{verify_device, verify_pin}
use farm_backend.Store.{
  Db, User, Wallet, transfer, TransactionType, processing, completed_tx, TransactionStatus,
  Transaction, debit, credit, Action, bad_request, forbidden, not_found, raise, pure, gets,
  or_raise, raise_if, transaction, adjust_wallet, create_transaction, update_transaction,
  create_entry, ◌>>=◌, ◌>>◌,
}
use farm_backend.Escrow.Env.{Env, Proof, given}
use farm_backend.Escrow.{is_id, is_some, active_wallet, available}
use farm_backend.Wallets.Platform.{credit_platform}

pub record SendDto : Type 0 where
  pub recipient_identifier : Text
  pub amount : ℤ
  pub proof : Proof

unfoldable pub check_send_device : Env → ℕ → Option Text → Action ⊤
check_send_device env sender_id none =
    raise (bad_request "Device fingerprint required for biometric authorization")
check_send_device env sender_id (some fingerprint) = do
  trusted ← verify_device env.sha256 env.now sender_id fingerprint
  raise_if (not trusted) (forbidden "Biometric device verification failed")

unfoldable pub check_send_pin : Env → ℕ → Option Text → Action ⊤
check_send_pin env sender_id none = raise (bad_request "Transaction PIN is required")
check_send_pin env sender_id (some pin) = verify_pin env.bcrypt sender_id pin

unfoldable pub authorize_send : Env → ℕ → Proof → Action ⊤
unfolding check_send_device check_send_pin
authorize_send env sender_id p =
    if p.biometric_auth
    then check_send_device env sender_id (given p.device_fingerprint)
    else check_send_pin env sender_id (given p.pin)

-- A username or a phone number of an active user, or else the address of any wallet.
unfoldable pub recipient_user : Text → Db → Option (ℕ × User)
recipient_user ident db =
    find_first
      (λ (u : User).
        (text_eq u.username ident || text_eq u.phone ident) && not u.is_deleted && u.is_active)
      db.users

abbrev pub wallet_of_user : Option (ℕ × User) → Db → Option (ℕ × Wallet)
wallet_of_user none db = none
wallet_of_user (some u) db = active_wallet u.0 db

abbrev pub or_address : Text → Option (ℕ × Wallet) → Db → Option (ℕ × Wallet)
or_address ident (some w) db = some w
or_address ident none db = find_first (λ (w : Wallet). text_eq w.wallet_address ident) db.wallets

unfoldable pub recipient_wallet : Text → Db → Option (ℕ × Wallet)
unfolding recipient_user
recipient_wallet ident db = or_address ident (wallet_of_user (recipient_user ident db) db) db

-- The limits, in atoms.
abbrev pub max_single_tx : ℕ
max_single_tx = 10_000_000_000_000

abbrev pub max_daily : ℕ
max_daily = 50_000_000_000_000

-- A completed transfer out of a wallet at `since` or later.
abbrev pub kind_eq : TransactionType → Bool
kind_eq transfer = true
kind_eq _ = false

abbrev pub is_completed : TransactionStatus → Bool
is_completed completed_tx = true
is_completed processing = false

unfoldable pub counts : ℕ → ℕ → Transaction → Bool
counts wallet_id since t =
    is_id wallet_id t.sender_wallet_id
    && kind_eq t.kind
    && is_completed t.status
    && leb since t.created_at

abbrev pub volume : ℕ → ℕ → Transaction → ℤ
volume wallet_id since t = if counts wallet_id since t then pos t.amount else pos 0

-- What a wallet has sent since a time.
unfoldable pub sent_since : ℕ → ℕ → Db → ℤ
sent_since wallet_id since db = sum_by (volume wallet_id since) db.transactions

-- A transfer of the same amount in the last minute.
unfoldable pub just_sent : ℕ → ℕ → ℕ → Transaction → Bool
unfolding counts
just_sent now wallet_id amount t =
    is_id wallet_id t.sender_wallet_id
    && kind_eq t.kind
    && t.amount == amount
    && is_completed t.status
    && leb now (t.created_at + 60_000)

unfoldable pub transfer_transaction : Env → ℕ → ℕ → ℕ → ℕ → ℕ → ℕ → Transaction
transfer_transaction env sender_id sender receiver amount fee merchant_fee = record {
  reference = env.reference;
  sender_wallet_id = some sender;
  receiver_wallet_id = some receiver;
  kind = transfer;
  status = processing;
  amount = amount;
  fee = fee;
  net_amount = pos amount -ℤ pos merchant_fee;
  metadata = record {
    user_id = some sender_id;
    escrow_id = none;
    is_partial = false;
    milestone = none;
    merchant_fee = if merchant_fee == 0 then none else some merchant_fee;
    request_id = none;
    intent_id = none;
    project_id = none;
  };
  created_at = env.now;
  processed_at = none;
}

abbrev pub sent : ℕ → Transaction → Transaction
sent now t = record t { status = completed_tx; processed_at = some now }

pub record SendResult : Type 0 where
  pub amount : ℕ
  pub fee : ℕ
  pub merchant_fee : ℕ
  pub sender_balance : ℤ
  pub receiver_balance : ℤ

-- The writes, once the sender's wallet has passed the checks.
unfoldable pub move_funds : Env → ℕ → ℕ → Wallet → ℕ → ℕ → ℕ → ℕ → Action SendResult
unfolding transfer_transaction
move_funds env sender_id sender wallet receiver amount fee merchant_fee = do
  let out = pos amount +ℤ pos fee
  let received = pos amount -ℤ pos merchant_fee
  txn ←
      create_transaction env.new_transaction
        (transfer_transaction env sender_id sender receiver amount fee merchant_fee)
  found ← gets (λ db. find receiver db.wallets)
  theirs ← or_raise (not_found "Recipient wallet not found") found
  from ← adjust_wallet sender (negate out) (pos 0)
  to ← adjust_wallet receiver received (pos 0)
  create_entry (record {
    transaction_id = some txn;
    wallet_id = sender;
    entry_type = debit;
    amount = out;
    balance_before = some wallet.balance;
    balance_after = some (wallet.balance -ℤ out);
  })
  create_entry (record {
    transaction_id = some txn;
    wallet_id = receiver;
    entry_type = credit;
    amount = received;
    balance_before = some theirs.balance;
    balance_after = some (theirs.balance +ℤ received);
  })
  credit_platform merchant_fee (some txn)
  credit_platform fee (some txn)
  update_transaction txn (sent env.now)
  pure (record {
    amount = amount;
    fee = fee;
    merchant_fee = merchant_fee;
    sender_balance = from.balance;
    receiver_balance = to.balance;
  })

abbrev pub merchant_fee_of : Env → Bool → ℕ → ℕ
merchant_fee_of env true amount = compute_fee (env.rule FeeKey.merchant) (finite (pos amount)) 8
merchant_fee_of env false amount = 0

abbrev pub transfer_fee_of : Env → ℕ → ℕ
transfer_fee_of env amount = compute_fee (env.rule FeeKey.transfer) (finite (pos amount)) 8

-- The checks of the sender's wallet. `today` is the midnight before `env.now`.
unfoldable pub send_from : Env → ℕ → ℕ → Bool → ℕ → ℕ → ℕ → Wallet → Action SendResult
unfolding sent_since just_sent move_funds
send_from env today sender_id merchant_pays receiver amount sender wallet = do
  raise_if wallet.is_frozen (forbidden "Your wallet is frozen. Contact support.")
  raise_if (not (leb amount max_single_tx)) (bad_request "Single transfer limit")
  so_far ← gets (sent_since sender today)
  raise_if (ltb_ℤ (pos max_daily) (so_far +ℤ pos amount))
      (bad_request "Daily transfer limit exceeded")
  raise_if (sender == receiver) (bad_request "Cannot send to yourself")
  let fee = transfer_fee_of env amount
  let merchant_fee = merchant_fee_of env merchant_pays amount
  raise_if (ltb_ℤ (available wallet) (pos amount +ℤ pos fee)) (bad_request "Insufficient balance.")
  recent ← gets (λ db. find_first (just_sent env.now sender amount) db.transactions)
  raise_if (is_some recent) (bad_request "You can only resend the same amount after 1 minute.")
  move_funds env sender_id sender wallet receiver amount fee merchant_fee

unfoldable pub send_tx : Env → ℕ → ℕ → Bool → ℕ → ℕ → Action SendResult
unfolding send_from
send_tx env today sender_id merchant_pays receiver amount = do
  mine ← gets (active_wallet sender_id)
  sender ← or_raise (not_found "Sender wallet not found") mine
  send_from env today sender_id merchant_pays receiver amount sender.0 sender.1

unfoldable pub send_funds : Env → ℕ → ℕ → Bool → SendDto → Action SendResult
unfolding authorize_send recipient_wallet
send_funds env today sender_id merchant_pays dto = do
  raise_if (leb_ℤ dto.amount (pos 0)) (bad_request "Amount must be greater than zero")
  authorize_send env sender_id dto.proof
  found ← gets (recipient_wallet dto.recipient_identifier)
  receiver ← or_raise (not_found "Recipient not found") found
  transaction (send_tx env today sender_id merchant_pays receiver.0 (pos_part dto.amount))
