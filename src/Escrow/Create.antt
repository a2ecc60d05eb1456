-- ===== src/Escrow/Create.antt =====
-- `EscrowService.create`.
use farm_backend.Prelude.{
  ℕ, ◌+◌, ◌*◌, ⊤, Bool, true, false, not, Option, none, some, ◌&&◌, ◌||◌, ◌==◌, ltb, leb, length,
}
use farm_backend.Prelude.Int.{ℤ, pos, pos_part, negate, ◌-ℤ◌, ltb_ℤ, leb_ℤ}
use farm_backend.Prelude.Number.{JsNumber, finite, not_finite}
use farm_backend.Prelude.Text.{Text, text_eq, trim, is_empty}
use farm_backend.Prelude.Table.{find, find_first}
use farm_backend.Fees.{FeeKey, compute_fee}
use farm_backend.Store.{
  Db, User, Wallet, Escrow, pending, active, escrow_lock, Transaction, completed_tx, Action,
  bad_request, not_found, pure, gets, or_raise, raise_if, transaction, adjust_wallet, update_escrow,
  create_escrow, create_transaction, ◌>>=◌, ◌>>◌,
}
use farm_backend.Escrow.Env.{Env, Proof, authorize}
use farm_backend.Escrow.Money.{is_id, active_wallet, credit_superadmin}

pub record CreateDto : Type 0 where
  pub seller_identifier : Text
  pub amount : JsNumber
  pub title : Text
  pub description : Option Text
  pub auto_release_days : Option ℕ
  pub proof : Proof

abbrev pub not_positive : JsNumber → Bool
not_positive not_finite = true
not_positive (finite a) = leb_ℤ a (pos 0)

abbrev pub atoms : JsNumber → ℕ
atoms not_finite = 0
atoms (finite a) = pos_part a

abbrev pub bad_days : Option ℕ → Bool
bad_days none = false
bad_days (some d) = ltb d 1 || ltb 90 d

-- The checks of the request alone.
unfoldable pub check_dto : CreateDto → Action ⊤
check_dto dto = do
  raise_if (not_positive dto.amount) (bad_request "Amount must be a positive number")
  raise_if (is_empty (trim dto.seller_identifier))
      (bad_request "Seller username or phone number is required")
  raise_if (is_empty (trim dto.title)) (bad_request "Escrow title is required")
  raise_if (ltb 255 (length (trim dto.title)))
      (bad_request "Escrow title must be 255 characters or fewer")
  raise_if (bad_days dto.auto_release_days)
      (bad_request "Auto-release must be between 1 and 90 days")

-- What the transaction takes from the checks.
pub record Prepared : Type 0 where
  pub buyer_id : ℕ
  pub buyer_wallet : ℕ
  pub seller_id : ℕ
  pub seller_wallet : ℕ
  pub amount : ℕ
  pub fee : ℕ
  pub title : Text
  pub description : Option Text
  pub auto_release_at : ℕ

abbrev pub available : Wallet → ℤ
available w = w.balance -ℤ w.locked_balance

-- `seller_identifier` is a username or a phone number of a user who is not deleted.
unfoldable pub seller_of : Text → Db → Option (ℕ × User)
seller_of ident db =
    find_first
      (λ (u : User). (text_eq u.username ident || text_eq u.phone ident) && not u.is_deleted)
      db.users

-- An escrow of the same parties and amount in the last minute.
unfoldable pub recent_duplicate : ℕ → ℕ → ℕ → ℕ → Escrow → Bool
recent_duplicate now buyer_id seller_id amount e =
    is_id buyer_id e.buyer_id
    && is_id seller_id e.seller_id
    && e.amount == amount
    && leb now (e.created_at + 60_000)

abbrev pub is_some {ℓ} : {A : Type ℓ} → Option A → Bool
is_some none = false
is_some (some _) = true

abbrev pub days_or_week : Option ℕ → ℕ
days_or_week none = 7
days_or_week (some d) = d

abbrev pub wallet_of : ℕ → Option User → Db → Option (ℕ × Wallet)
wallet_of user_id none db = none
wallet_of user_id (some _) db = active_wallet user_id db

unfoldable pub create_checks : Env → ℕ → CreateDto → Action Prepared
unfolding check_dto seller_of recent_duplicate
create_checks env buyer_id dto = do
  check_dto dto
  authorize env buyer_id dto.proof
  found ← gets (λ db. wallet_of buyer_id (find buyer_id db.users) db)
  buyer ← or_raise (not_found "Buyer wallet not found") found
  raise_if buyer.1.is_frozen (bad_request "Buyer wallet is frozen and cannot fund an escrow")
  match ← gets (seller_of (trim dto.seller_identifier))
  seller ← or_raise (not_found "Seller not found") match
  theirs ← gets (active_wallet seller.0)
  wallet ← or_raise (not_found "Seller not found") theirs
  raise_if (seller.0 == buyer_id) (bad_request "Cannot create escrow with yourself")
  recent ←
      gets (λ db.
        find_first (recent_duplicate env.now buyer_id seller.0 (atoms dto.amount)) db.escrows)
  raise_if (is_some recent) (
      bad_request
        "You can only create one escrow with the same seller and amount once every minute")
  let fee = compute_fee (env.rule FeeKey.escrow_creation) dto.amount 2
  raise_if (ltb_ℤ (available buyer.1) (pos (atoms dto.amount + fee)))
      (bad_request "Insufficient balance.")
  pure (record {
    buyer_id = buyer_id;
    buyer_wallet = buyer.0;
    seller_id = seller.0;
    seller_wallet = wallet.0;
    amount = atoms dto.amount;
    fee = fee;
    title = trim dto.title;
    description = dto.description;
    auto_release_at = env.now + days_or_week dto.auto_release_days * 86_400_000;
  })

unfoldable pub new_contract : Env → Prepared → Escrow
new_contract env p = record {
  reference_code = env.reference;
  buyer_id = some p.buyer_id;
  seller_id = some p.seller_id;
  arbiter_id = none;
  buyer_wallet_id = some p.buyer_wallet;
  seller_wallet_id = some p.seller_wallet;
  amount = p.amount;
  fee = p.fee;
  status = pending;
  title = p.title;
  description = p.description;
  evidence = none;
  created_at = env.now;
  funded_at = none;
  released_at = none;
  disputed_at = none;
  resolved_at = none;
  auto_release_at = p.auto_release_at;
  resolution_note = none;
  released_amount = 0;
}

abbrev pub funded : ℕ → Escrow → Escrow
funded now e = record e { status = active; funded_at = some now }

unfoldable pub lock_transaction : Env → Prepared → Transaction
lock_transaction env p = record {
  reference = env.reference;
  sender_wallet_id = some p.buyer_wallet;
  receiver_wallet_id = none;
  kind = escrow_lock;
  status = completed_tx;
  amount = p.amount;
  fee = p.fee;
  net_amount = pos p.amount;
  metadata = record {
    user_id = some p.buyer_id;
    escrow_id = some env.new_escrow;
    is_partial = false;
    milestone = none;
    merchant_fee = none;
    request_id = none;
    intent_id = none;
    project_id = none;
  };
  created_at = env.now;
  processed_at = some env.now;
}

-- The writes of the transaction, once the wallet's row is locked and has the funds.
unfoldable pub fund_writes : Env → Prepared → Action ℕ
unfolding new_contract lock_transaction
fund_writes env p = do
  create_escrow env.new_escrow (new_contract env p)
  adjust_wallet p.buyer_wallet (negate (pos p.fee)) (pos p.amount)
  update_escrow env.new_escrow (funded env.now)
  create_transaction env.new_transaction (lock_transaction env p)
  credit_superadmin p.fee
  pure env.new_escrow

unfoldable pub create_tx : Env → Prepared → Action ℕ
unfolding fund_writes
create_tx env p = do
  found ← gets (λ db. find p.buyer_wallet db.wallets)
  wallet ← or_raise (not_found "Buyer wallet not found") found
  raise_if (ltb_ℤ (available wallet) (pos (p.amount + p.fee))) (bad_request "Insufficient balance.")
  fund_writes env p

unfoldable pub create : Env → ℕ → CreateDto → Action ℕ
create env buyer_id dto = do p ← create_checks env buyer_id dto; transaction (create_tx env p)
