-- ===== src/Escrow/Refund.antt =====
-- `EscrowService.executeRefund`, and `AdminService.resolveDispute` (src/admin/admin.service.ts),
-- whose audit log is left out.
use farm_backend.Prelude.{ℕ, false, not, Option, none, some}
use farm_backend.Prelude.Int.{pos, negate}
use farm_backend.Prelude.Text.{Text}
use farm_backend.Prelude.Table.{find}
use farm_backend.Store.{
  Escrow, disputed, refunded, escrow_refund, Transaction, completed_tx, Action, bad_request,
  not_found, no_record, pure, gets, or_raise, raise_if, transaction, adjust_wallet,
  update_many_escrow, create_transaction, ◌>>=◌, ◌>>◌,
}
use farm_backend.Escrow.Env.{Env}
use farm_backend.Escrow.Money.{remaining_amount}
use farm_backend.Escrow.Release.{
  Resolution, status_eq, settled_from, not_open, fresh_or, execute_release,
}

abbrev pub refund_note : Option Resolution → Escrow → Escrow
refund_note none e = e
refund_note (some r) e = record e { arbiter_id = some r.admin_id; resolution_note = some r.note }

abbrev pub refund_row : ℕ → Option Resolution → Escrow → Escrow
refund_row now res e = refund_note res (record e { status = refunded; resolved_at = some now })

unfoldable pub refund_transaction : Env → ℕ → Escrow → ℕ → ℕ → Transaction
refund_transaction env id e buyer_wallet amount = record {
  reference = env.reference;
  sender_wallet_id = none;
  receiver_wallet_id = some buyer_wallet;
  kind = escrow_refund;
  status = completed_tx;
  amount = amount;
  fee = 0;
  net_amount = pos amount;
  metadata = record {
    user_id = e.buyer_id;
    escrow_id = some id;
    is_partial = false;
    milestone = none;
    merchant_fee = none;
    request_id = none;
    intent_id = none;
    project_id = none;
  };
  created_at = env.now;
  processed_at = some env.now;
}

-- The answer is what is given back. An escrow with no buyer wallet finds no wallet to update.
unfoldable pub refund_tx : Env → ℕ → Escrow → Option Resolution → Action ℕ
unfolding refund_transaction status_eq
refund_tx env id e res = do
  claimed ←
      update_many_escrow id (λ r. status_eq r.status (settled_from res)) (refund_row env.now res)
  raise_if (not claimed) (not_open res)
  row ← gets (λ db. find id db.escrows)
  let amount = remaining_amount (fresh_or e row)
  buyer_wallet ← or_raise no_record e.buyer_wallet_id
  adjust_wallet buyer_wallet (pos 0) (negate (pos amount))
  create_transaction env.new_transaction (refund_transaction env id e buyer_wallet amount)
  pure amount

-- `executeRefund`, given the row that its caller has read. The amount is an answer of the model: the
-- code returns nothing.
unfoldable pub execute_refund : Env → ℕ → Escrow → Option Resolution → Action ℕ
execute_refund env id e res = transaction (refund_tx env id e res)

pub data Winner : Type 0 where
  buyer seller : Winner

unfoldable pub settle : Env → ℕ → Escrow → Resolution → Winner → Action ℕ
settle env id e r seller = execute_release env id e (some r)
settle env id e r buyer = execute_refund env id e (some r)

unfoldable pub resolve_dispute : Env → ℕ → ℕ → Winner → Text → Action ℕ
unfolding settle status_eq
resolve_dispute env id admin_id winner note = do
  found ← gets (λ db. find id db.escrows)
  e ← or_raise (not_found "Escrow not found") found
  raise_if (not (status_eq e.status disputed)) (bad_request "Only disputed escrows can be resolved")
  settle env id e (record { admin_id = admin_id; note = note }) winner
