-- ===== src/Projects/Reserve.antt =====
-- The functions of src/project-marketplace/consolidation.ts.
use farm_backend.Prelude.{
  ℕ, ◌+◌, ◌-◌, ⊤, refl, Bool, not, Option, none, some, ◌||◌, ◌==◌, ltb, leb, if◌then◌else◌,
}
use farm_backend.Prelude.Int.{pos, negate, ◌-ℤ◌}
use farm_backend.Prelude.Number.{finite}
use farm_backend.Prelude.Table.{find}
use farm_backend.Fees.{FeeKey, compute_fee}
use farm_backend.Store.{
  Project, Field, Transaction, fee, completed_tx, debit, credit, no_metadata, Action, internal,
  pure, gets, or_raise, raise_if, transaction, adjust_wallet, create_transaction, create_entry,
  claim_in, ◌>>=◌, ◌>>◌,
}
use farm_backend.Escrow.Env.{Env}
use farm_backend.Escrow.{is_some, platform_wallet}
use farm_backend.Wallets.{credit_platform}

abbrev pub project_rows : Field Project
project_rows = record {
  get = λ db. db.projects;
  put = λ t db. record db { projects = t };
  got = λ t db. refl;
  same_wallets = λ t db. refl;
  same_escrows = λ t db. refl;
  past_wallets = λ ws db. refl;
  past_users = λ us db. refl;
  past_transactions = λ ts db. refl;
  past_ledger = λ es db. refl;
}

-- `heldFunds`; ℕ's subtraction stops at 0, as `Math.max(0, …)` does
unfoldable pub held_funds : Project → ℕ
held_funds p = p.raised_amount - p.consolidation_fee - p.released_amount

-- `reserveLeft`
unfoldable pub reserve_left : Project → ℕ
reserve_left p = p.consolidation_fee - p.consolidation_refunded - p.consolidation_released

abbrev pub charged : ℕ → ℕ → Project → Project
charged amount now p = record p { consolidation_fee = amount; consolidation_fee_at = some now }

abbrev pub fee_transaction : Env → ℕ → ℕ → Transaction
fee_transaction env id amount = record {
  reference = env.reference;
  sender_wallet_id = none;
  receiver_wallet_id = none;
  kind = fee;
  status = completed_tx;
  amount = amount;
  fee = 0;
  net_amount = pos amount;
  metadata = record no_metadata { project_id = some id };
  created_at = env.now;
  processed_at = some env.now;
}

unfoldable pub listing_fee : Env → ℕ → ℕ
listing_fee env raised =
    if ltb 0 raised
    then compute_fee (env.rule FeeKey.project_listing) (finite (pos raised)) 2
    else 0

module _ (env : Env) (id : ℕ) where
  unfoldable pub credit_fee : ℕ → Action ℕ
  credit_fee amount = do
    txn ← create_transaction env.new_transaction (fee_transaction env id amount)
    credit_platform amount (some txn)
    pure amount

  unfoldable pub charge_row : Option Project → Action ℕ
  unfolding credit_fee listing_fee
  charge_row none = pure 0
  charge_row (some p) = if is_some p.consolidation_fee_at then pure 0 else do
    let amount = listing_fee env p.raised_amount
    claimed ←
        claim_in project_rows id (λ p. not (is_some p.consolidation_fee_at))
          (charged amount env.now)
    if not claimed || amount == 0 then pure 0 else credit_fee amount

  -- `chargeConsolidationInTx`
  unfoldable pub charge_consolidation : Action ℕ
  unfolding charge_row
  charge_consolidation = do found ← gets (λ db. find id db.projects); charge_row found

  -- `closeRound`
  unfoldable pub close_round : Action ℕ
  unfolding charge_consolidation
  close_round = transaction charge_consolidation

-- The guard of both raw updates.
unfoldable pub has_reserve : ℕ → Project → Bool
has_reserve amount p =
    leb (p.consolidation_refunded + p.consolidation_released + amount) p.consolidation_fee

abbrev pub take_refund : ℕ → Project → Project
take_refund amount p = record p { consolidation_refunded = p.consolidation_refunded + amount }

abbrev pub take_release : ℕ → Project → Project
take_release amount p = record p { consolidation_released = p.consolidation_released + amount }

unfoldable pub debit_platform : ℕ → ℕ → Action ⊤
debit_platform amount txn = do
  found ← gets platform_wallet
  w ← or_raise (internal "Platform wallet not found") found
  adjust_wallet w.0 (negate (pos amount)) (pos 0)
  create_entry (record {
    transaction_id = some txn;
    wallet_id = w.0;
    entry_type = debit;
    amount = pos amount;
    balance_before = some w.1.balance;
    balance_after = some (w.1.balance -ℤ pos amount);
  })

unfoldable pub draw_reserve : ℕ → ℕ → ℕ → Action ⊤
unfolding has_reserve debit_platform
draw_reserve id amount txn = do
  claimed ← claim_in project_rows id (has_reserve amount) (take_refund amount)
  raise_if (not claimed) (internal "Consolidation reserve exhausted")
  debit_platform amount txn

-- `payFromReserveInTx`
unfoldable pub pay_from_reserve : ℕ → ℕ → ℕ → Action ⊤
unfolding draw_reserve
pay_from_reserve id amount txn = if amount == 0 then pure tt else draw_reserve id amount txn

unfoldable pub reclassify : ℕ → ℕ → Action ⊤
reclassify amount txn = do
  found ← gets platform_wallet
  w ← or_raise (internal "Platform wallet not found") found
  create_entry (record {
    transaction_id = some txn;
    wallet_id = w.0;
    entry_type = debit;
    amount = pos amount;
    balance_before = some w.1.balance;
    balance_after = some w.1.balance;
  })
  create_entry (record {
    transaction_id = some txn;
    wallet_id = w.0;
    entry_type = credit;
    amount = pos amount;
    balance_before = some w.1.balance;
    balance_after = some w.1.balance;
  })

unfoldable pub keep_reserve : ℕ → ℕ → ℕ → Action ⊤
unfolding has_reserve reclassify
keep_reserve id amount txn = do
  claimed ← claim_in project_rows id (has_reserve amount) (take_release amount)
  raise_if (not claimed) (internal "Consolidation reserve exhausted")
  reclassify amount txn

-- `releaseReserveToFarmInTx`
unfoldable pub release_reserve : ℕ → ℕ → ℕ → Action ⊤
unfolding keep_reserve
release_reserve id amount txn = if amount == 0 then pure tt else keep_reserve id amount txn
