-- ===== src/Requests/Service.antt =====
-- The tables `transfer_requests` and `payment_requests`, and what the services say of them.
use farm_backend.Prelude.{refl, Bool, true, false}
use farm_backend.Store.{MoneyRequest, RequestStatus, requested, Field, Error, not_found}

pub record Service : Type 0 where
  pub rows : Field MoneyRequest
  pub no_payer : Error
  pub no_request : Error
  pub no_payer_wallet : Error

abbrev pub transfer_rows : Field MoneyRequest
transfer_rows = record {
  get = λ db. db.transfer_requests;
  put = λ t db. record db { transfer_requests = t };
  got = λ t db. refl;
  same_wallets = λ t db. refl;
  same_escrows = λ t db. refl;
  past_wallets = λ ws db. refl;
  past_users = λ us db. refl;
  past_transactions = λ ts db. refl;
  past_ledger = λ es db. refl;
}

abbrev pub payment_rows : Field MoneyRequest
payment_rows = record {
  get = λ db. db.payment_requests;
  put = λ t db. record db { payment_requests = t };
  got = λ t db. refl;
  same_wallets = λ t db. refl;
  same_escrows = λ t db. refl;
  past_wallets = λ ws db. refl;
  past_users = λ us db. refl;
  past_transactions = λ ts db. refl;
  past_ledger = λ es db. refl;
}

abbrev pub transfer_service : Service
transfer_service = record {
  rows = transfer_rows;
  no_payer = not_found "Sender not found";
  no_request = not_found "Transfer request not found";
  no_payer_wallet = not_found "Sender wallet not found";
}

abbrev pub payment_service : Service
payment_service = record {
  rows = payment_rows;
  no_payer = not_found "Recipient not found";
  no_request = not_found "Payment request not found";
  no_payer_wallet = not_found "Payer wallet not found";
}

-- `status === 'pending'`
unfoldable pub is_requested : RequestStatus → Bool
is_requested requested = true
is_requested _ = false
