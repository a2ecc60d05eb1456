-- ===== src/Escrow/Release.antt =====
-- `EscrowService.executeRelease`, and its callers `release` and `processAutoReleases`.
use farm_backend.Prelude.{
  ℕ, suc, ⊤, Bool, true, false, not, Option, none, some, List, [], ◌∷◌, ◌&&◌, ◌==◌, leb, length,
  if◌then◌else◌,
}
use farm_backend.Prelude.Int.{ℤ, pos, negate, ◌-ℤ◌}
use farm_backend.Prelude.Number.{finite}
use farm_backend.Prelude.Text.{Text}
use farm_backend.Prelude.Table.{Table, find}
use farm_backend.Fees.{FeeKey, compute_fee}
use farm_backend.Store.{
  Escrow, EscrowStatus, pending, active, completed, disputed, cancelled, refunded, escrow_release,
  Transaction, completed_tx, LedgerEntry, EntryType, debit, credit, Action, Result, ok, err, Error,
  bad_request, forbidden, not_found, pure, raise, gets, or_raise, raise_if, transaction,
  adjust_wallet, update_many_escrow, create_transaction, create_entry, ◌>>=◌, ◌>>◌,
}
use farm_backend.Escrow.Env.{Env, Proof, authorize}
use farm_backend.Escrow.Money.{remaining_amount, is_id, credit_superadmin}

-- An admin's decision on a dispute.
pub record Resolution : Type 0 where
  pub admin_id : ℕ
  pub note : Text

unfoldable pub status_eq : EscrowStatus → EscrowStatus → Bool
status_eq pending pending = true
status_eq active active = true
status_eq completed completed = true
status_eq disputed disputed = true
status_eq cancelled cancelled = true
status_eq refunded refunded = true
status_eq _ _ = false

-- The status from which a release or a refund starts, and the message where it is another.
abbrev pub settled_from : Option Resolution → EscrowStatus
settled_from none = active
settled_from (some _) = disputed

abbrev pub not_open : Option Resolution → Error
not_open none = bad_request "Escrow is no longer active"
not_open (some _) = bad_request "Escrow is no longer disputed"

abbrev pub resolved_by : ℕ → Option Resolution → Escrow → Escrow
resolved_by now none e = e
resolved_by now (some r) e = record e {
  arbiter_id = some r.admin_id;
  resolution_note = some r.note;
  resolved_at = some now;
}

abbrev pub release_row : ℕ → Option Resolution → Escrow → Escrow
release_row now res e =
    resolved_by now res (record e { status = completed; released_at = some now })

abbrev pub entry : ℕ → ℕ → EntryType → ℤ → LedgerEntry
entry txn wallet kind amount = record {
  transaction_id = some txn;
  wallet_id = wallet;
  entry_type = kind;
  amount = amount;
  balance_before = none;
  balance_after = none;
}

unfoldable pub release_transaction :
    Env
    → ℕ
    → Escrow
    → (buyer_wallet seller_wallet : ℕ) → (amount fee : ℕ) → Option Text
    → Transaction
release_transaction env id e buyer_wallet seller_wallet amount fee milestone = record {
  reference = env.reference;
  sender_wallet_id = some buyer_wallet;
  receiver_wallet_id = some seller_wallet;
  kind = escrow_release;
  status = completed_tx;
  amount = amount;
  fee = fee;
  net_amount = pos amount -ℤ pos fee;
  metadata = record {
    user_id = e.buyer_id;
    escrow_id = some id;
    is_partial = elim milestone [ none ↦ false | some _ ↦ true ];
    milestone = milestone;
    merchant_fee = none;
    request_id = none;
    intent_id = none;
    project_id = none;
  };
  created_at = env.now;
  processed_at = some env.now;
}

-- The writes that pay `amount` of an escrow's locked funds: what a release and a milestone share.
unfoldable pub pay_seller :
    Env → ℕ → Escrow → (buyer_wallet seller_wallet : ℕ) → (amount fee : ℕ) → Option Text → Action ⊤
unfolding release_transaction
pay_seller env id e buyer_wallet seller_wallet amount fee milestone = do
  let to_seller = pos amount -ℤ pos fee
  adjust_wallet buyer_wallet (negate (pos amount)) (negate (pos amount))
  adjust_wallet seller_wallet to_seller (pos 0)
  txn ←
      create_transaction env.new_transaction
        (release_transaction env id e buyer_wallet seller_wallet amount fee milestone)
  create_entry (entry txn buyer_wallet debit (pos amount))
  create_entry (entry txn seller_wallet credit to_seller)
  credit_superadmin fee

-- The row as the transaction reads it back, or the caller's where it is gone.
abbrev pub fresh_or : Escrow → Option Escrow → Escrow
fresh_or e none = e
fresh_or e (some f) = f

-- The end of the transaction: nothing is paid where milestones have released all. The answer is
-- what is paid.
unfoldable pub release_locked : Env → ℕ → Escrow → (buyer_wallet seller_wallet : ℕ) → ℕ → Action ℕ
unfolding pay_seller
release_locked env id e buyer_wallet seller_wallet locked =
    if locked == 0
    then pure 0
    else (pay_seller env id e buyer_wallet seller_wallet locked
          (compute_fee (env.rule FeeKey.escrow_release) (finite (pos locked)) 2) none
        >> pure locked)

unfoldable pub release_tx :
    Env → ℕ → Escrow → Option Resolution → (buyer_wallet seller_wallet : ℕ) → Action ℕ
unfolding release_locked status_eq
release_tx env id e res buyer_wallet seller_wallet = do
  claimed ←
      update_many_escrow id (λ r. status_eq r.status (settled_from res)) (release_row env.now res)
  raise_if (not claimed) (not_open res)
  row ← gets (λ db. find id db.escrows)
  release_locked env id e buyer_wallet seller_wallet (remaining_amount (fresh_or e row))

-- `executeRelease`, given the row that its caller has read. The amount is an answer of the model: the
-- code returns nothing.
unfoldable pub execute_release : Env → ℕ → Escrow → Option Resolution → Action ℕ
execute_release env id e res = do
  buyer_wallet ←
      or_raise (bad_request "Escrow is missing a buyer or seller wallet") e.buyer_wallet_id
  seller_wallet ←
      or_raise (bad_request "Escrow is missing a buyer or seller wallet") e.seller_wallet_id
  raise_if (e.amount == 0) (bad_request "Escrow amount is invalid")
  transaction (release_tx env id e res buyer_wallet seller_wallet)

unfoldable pub get_escrow_or_fail : ℕ → Action Escrow
get_escrow_or_fail id = do
  found ← gets (λ db. find id db.escrows)
  or_raise (not_found "Escrow contract not found") found

pub data Released : Type 0 where
  already_released released_to_seller : Released

-- The handler around `executeRelease` in `release`: a refusal because another release of the same
-- escrow came first is a success.
unfoldable pub settle_release : ℕ → ℕ → Result ℕ → Action Released
unfolding get_escrow_or_fail status_eq
settle_release id buyer_id (ok _) = pure released_to_seller
settle_release id buyer_id (err (bad_request message)) = do
  latest ← get_escrow_or_fail id
  if is_id buyer_id latest.buyer_id && status_eq latest.status completed
      then pure already_released
      else raise (bad_request message)
settle_release id buyer_id (err e) = raise e

-- `try`: the exception becomes a value; what was written stays.
unfoldable pub attempt : {A : Type 0} → Action A → Action (Result A)
attempt m db = let (r, db') = m db in (ok r, db')

abbrev pub cannot_release : Error
cannot_release = bad_request "Cannot release escrow in this status"

-- `release` of an escrow that is not completed
unfoldable pub release_open : Env → ℕ → ℕ → Proof → Escrow → Action Released
unfolding settle_release attempt status_eq
release_open env id buyer_id proof e = do
  raise_if (not (status_eq e.status active)) cannot_release
  authorize env buyer_id proof
  r ← attempt (execute_release env id e none)
  settle_release id buyer_id r

-- `release`
unfoldable pub release : Env → ℕ → ℕ → Proof → Action Released
unfolding release_open get_escrow_or_fail status_eq
release env id buyer_id proof = do
  e ← get_escrow_or_fail id
  raise_if (not (is_id buyer_id e.buyer_id)) (forbidden "Only the buyer can release")
  if status_eq e.status completed
      then pure already_released
      else release_open env id buyer_id proof e

-- `processAutoReleases`: the active escrows whose time has come are read once, then released one by
-- one; a failure is logged. Each round has its own clock and ids.
unfoldable pub is_expired : ℕ → Escrow → Bool
unfolding status_eq
is_expired now e = status_eq e.status active && leb e.auto_release_at now

unfoldable pub expired_rows : ℕ → Table Escrow → List (ℕ × Escrow)
unfolding is_expired
expired_rows now [] = []
expired_rows now ((id, e) ∷ t) =
    let rest = expired_rows now t in if is_expired now e then (id, e) ∷ rest else rest

abbrev pub count_ok : Result ℕ → ℕ → ℕ
count_ok (ok _) n = suc n
count_ok (err _) n = n

unfoldable pub release_each : (ℕ → Env) → List (ℕ × Escrow) → ℕ → Action ℕ
release_each env [] released db = (ok released, db)
release_each env ((id, e) ∷ rows) released db =
    let (r, db') = execute_release (env (length rows)) id e none db in
    release_each env rows (count_ok r released) db'

unfoldable pub process_auto_releases : ℕ → (ℕ → Env) → Action ℕ
unfolding release_each expired_rows
process_auto_releases now env db = release_each env (expired_rows now db.escrows) 0 db
