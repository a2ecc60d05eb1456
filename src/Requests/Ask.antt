-- ===== src/Requests/Ask.antt =====
-- `requestFunds` and `createRequest`.
use farm_backend.Prelude.{ℕ, ◌+◌, Option, none, some, ◌==◌}
use farm_backend.Prelude.Int.{ℤ, pos, pos_part, ltb_ℤ, leb_ℤ}
use farm_backend.Prelude.Text.{Text, text_eq}
use farm_backend.Prelude.Table.{find_first}
use farm_backend.Store.{
  Db, User, Wallet, MoneyRequest, requested, Action, bad_request, not_found, pure, gets, or_raise,
  raise_if, transaction, create_in, ◌>>=◌, ◌>>◌,
}
use farm_backend.Escrow.Env.{Env}
use farm_backend.Escrow.{active_wallet}
use farm_backend.Wallets.{recipient_user, wallet_of_user}
use farm_backend.Requests.Service.{Service, transfer_service, payment_service}

pub record AskDto : Type 0 where
  pub payer_identifier : Text
  pub amount : ℤ

-- 100,000 FARM in atoms
abbrev pub max_single_request : ℕ
max_single_request = 10_000_000_000_000

-- Five minutes
abbrev pub request_lifetime : ℕ
request_lifetime = 300_000

-- The owner of a wallet and the wallet.
abbrev pub owned : Option (ℕ × Wallet) → Option (ℕ × ℕ)
owned none = none
owned (some w) = elim w.1.user_id [ none ↦ none | some u ↦ some (u, w.0) ]

abbrev pub user_or_address :
    Option (ℕ × User) → Option (ℕ × Wallet) → Option (ℕ × Wallet) → Option (ℕ × ℕ)
user_or_address (some u) (some w) by_address = some (u.0, w.0)
user_or_address _ _ by_address = owned by_address

-- The user and the wallet that are asked.
unfoldable pub payer_of : Text → Db → Option (ℕ × ℕ)
unfolding recipient_user
payer_of ident db =
    user_or_address (recipient_user ident db) (wallet_of_user (recipient_user ident db) db)
      (find_first (λ (w : Wallet). text_eq w.wallet_address ident) db.wallets)

abbrev pub new_request : Env → ℕ → ℕ → ℕ × ℕ → ℕ → MoneyRequest
new_request env requester_id wallet_id payer amount = record {
  request_reference = env.reference;
  requester_user_id = some requester_id;
  requester_wallet_id = some wallet_id;
  payer_user_id = some payer.0;
  payer_wallet_id = some payer.1;
  amount = amount;
  status = requested;
  transaction_id = none;
  expires_at = some (env.now + request_lifetime);
  accepted_at = none;
  completed_at = none;
  rejected_at = none;
}

-- `new_id` is the id that the database gives the row.
module _ (s : Service) (env : Env) (new_id requester_id : ℕ) where
  unfoldable pub ask_tx : Text → ℕ → Action ℕ
  unfolding payer_of
  ask_tx ident amount = do
    mine ← gets (active_wallet requester_id)
    wallet ← or_raise (not_found "Requester wallet not found") mine
    found ← gets (payer_of ident)
    payer ← or_raise s.no_payer found
    raise_if (wallet.0 == payer.1) (bad_request "Cannot request from yourself")
    raise_if (requester_id == payer.0) (bad_request "Cannot request from yourself")
    create_in s.rows new_id (new_request env requester_id wallet.0 payer amount)
    pure new_id

  unfoldable pub ask : AskDto → Action ℕ
  unfolding ask_tx
  ask dto = do
    raise_if (leb_ℤ dto.amount (pos 0)) (bad_request "Amount must be greater than zero")
    raise_if (ltb_ℤ (pos max_single_request) dto.amount)
        (bad_request "Single request limit is 100000 FARM")
    transaction (ask_tx dto.payer_identifier (pos_part dto.amount))

-- `TransferRequestsService.requestFunds`
unfoldable pub request_funds : Env → ℕ → ℕ → AskDto → Action ℕ
request_funds = ask transfer_service

-- `PaymentRequestsService.createRequest`
unfoldable pub create_request : Env → ℕ → ℕ → AskDto → Action ℕ
create_request = ask payment_service
