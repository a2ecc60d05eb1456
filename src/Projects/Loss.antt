-- ===== src/Projects/Loss.antt =====
-- `creditInvestor`, `refundReserveForLoss` and `releaseReserveToFarm`.
use farm_backend.Prelude.{
  ℕ, suc, ◌+◌, ◌*◌, ◌/◌, Bool, true, false, not, none, some, List, [], ◌∷◌, ◌&&◌, ◌||◌, ◌==◌, ltb,
  if◌then◌else◌,
}
use farm_backend.Prelude.Int.{pos}
use farm_backend.Prelude.Text.{Text, trim, is_empty}
use farm_backend.Prelude.Table.{Table, find}
use farm_backend.Store.{
  ProjectStatus, funded_project, closed_project, Investment, InvestmentStatus, committed, deployed,
  refunded_part, Transaction, investment_refund, completed_tx, credit, no_metadata, Action,
  bad_request, not_found, pure, gets, or_raise, raise_if, transaction, adjust_wallet,
  create_transaction, create_entry, ◌>>=◌, ◌>>◌,
}
use farm_backend.Escrow.Env.{Env}
use farm_backend.Escrow.{is_some}
use farm_backend.Requests.{rows_where}
use farm_backend.AgentPayments.{payer_wallet}
use farm_backend.Projects.Reserve.{
  held_funds, reserve_left, fee_transaction, pay_from_reserve, release_reserve,
}

abbrev pub refund_transaction_of : Env → ℕ → ℕ → ℕ → Transaction
refund_transaction_of env id wallet_id amount = record {
  reference = env.reference;
  sender_wallet_id = none;
  receiver_wallet_id = some wallet_id;
  kind = investment_refund;
  status = completed_tx;
  amount = amount;
  fee = 0;
  net_amount = pos amount;
  metadata = record no_metadata { project_id = some id };
  created_at = env.now;
  processed_at = some env.now;
}

-- `creditInvestor`; `next` is the id of the new transaction.
unfoldable pub credit_investor : Env → ℕ → ℕ → Investment → ℕ → Action ℕ
credit_investor env id next inv amount = do
  found ← gets (payer_wallet inv.user_id)
  w ← or_raise (bad_request "Investor wallet missing") found
  adjust_wallet w.0 (pos amount) (pos 0)
  txn ← create_transaction next (refund_transaction_of env id w.0 amount)
  create_entry (record {
    transaction_id = some txn;
    wallet_id = w.0;
    entry_type = credit;
    amount = pos amount;
    balance_before = none;
    balance_after = none;
  })
  pure txn

-- The statuses of an investment that shares in a loss.
unfoldable pub shares : InvestmentStatus → Bool
shares committed = true
shares deployed = true
shares refunded_part = true
shares _ = false

unfoldable pub is_invested : ℕ → Investment → Bool
unfolding shares
is_invested id inv = inv.project_id == id && shares inv.status

-- An investment's part of the reserve, down to hundredths of a FARM.
unfoldable pub loss_part : ℕ → ℕ → Investment → ℕ
loss_part reserve raised inv = inv.amount * reserve / (raised * 1_000_000) * 1_000_000

unfoldable pub loss_parts : ℕ → ℕ → Table Investment → List (Investment × ℕ)
unfolding loss_part
loss_parts reserve raised [] = []
loss_parts reserve raised ((k, inv) ∷ t) =
    let rest = loss_parts reserve raised t in
    let amount = loss_part reserve raised inv in if amount == 0 then rest else (inv, amount) ∷ rest

unfoldable pub repay_each : Env → ℕ → ℕ → List (Investment × ℕ) → Action ℕ
unfolding credit_investor
repay_each env id next [] = pure 0
repay_each env id next ((inv, amount) ∷ parts) = do
  txn ← credit_investor env id next inv amount
  pay_from_reserve id amount txn
  sum ← repay_each env id (suc next) parts
  pure (amount + sum)

-- `refundReserveForLoss`
unfoldable pub refund_for_loss : Env → ℕ → Text → Action ℕ
unfolding repay_each loss_parts is_invested reserve_left
refund_for_loss env id notes = do
  raise_if (is_empty (trim notes)) (bad_request "Notes are required (describe the loss)")
  found ← gets (λ db. find id db.projects)
  p ← or_raise (not_found "Project not found") found
  raise_if (not (is_some p.consolidation_fee_at)) (bad_request "The funding round has not closed")
  raise_if (ltb 0 p.consolidation_released) (bad_request "The reserve was already released to FARM")
  raise_if (ltb 0 p.consolidation_refunded)
      (bad_request "The consolidation reserve was already refunded")
  raise_if (reserve_left p == 0 || p.raised_amount == 0)
      (bad_request "No consolidation reserve to refund")
  rows ← gets (λ db. rows_where (is_invested id) db.investments)
  transaction
      (repay_each env id env.new_transaction (loss_parts (reserve_left p) p.raised_amount rows))

-- `RELEASABLE`
unfoldable pub is_releasable : ProjectStatus → Bool
is_releasable funded_project = true
is_releasable closed_project = true
is_releasable _ = false

unfoldable pub release_tx_of : Env → ℕ → ℕ → Action ℕ
release_tx_of env id amount = do
  txn ← create_transaction env.new_transaction (fee_transaction env id amount)
  release_reserve id amount txn
  pure txn

-- `releaseReserveToFarm`
unfoldable pub release_to_farm : Env → ℕ → Text → Action ℕ
unfolding held_funds reserve_left is_releasable release_tx_of
release_to_farm env id notes = do
  raise_if (is_empty (trim notes)) (bad_request "Notes are required (confirm completion)")
  found ← gets (λ db. find id db.projects)
  p ← or_raise (not_found "Project not found") found
  raise_if (not (is_some p.consolidation_fee_at) || not (is_releasable p.status))
      (bad_request "The funding round has not closed")
  raise_if (ltb 500_000 (held_funds p))
      (bad_request "All milestones must be released before the project is completed")
  raise_if (ltb 0 p.consolidation_refunded)
      (bad_request "Investors were already refunded from this reserve")
  raise_if (reserve_left p == 0) (bad_request "No consolidation reserve left")
  transaction (release_tx_of env id (reserve_left p))
