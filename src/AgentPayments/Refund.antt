-- ===== src/AgentPayments/Refund.antt =====
-- `refund` and `refundFromDashboard`.
use farm_backend.Prelude.{
  ℕ, ◌+◌, ◌-◌, Bool, true, not, Option, none, some, ◌&&◌, ◌||◌, ◌==◌, ltb, leb, if◌then◌else◌,
}
use farm_backend.Prelude.Int.{ℤ, pos, pos_part, ◌+ℤ◌, ◌-ℤ◌}
use farm_backend.Prelude.Text.{Text}
use farm_backend.Prelude.Table.{find_first}
use farm_backend.Auth.{verify_pin}
use farm_backend.Store.{
  Db, Wallet, Intent, IntentStatus, succeeded, partially_returned, returned_all, PaymentRefund,
  Transaction, transfer, completed_tx, debit, credit, no_metadata, Action, bad_request, forbidden,
  not_found, conflict, pure, gets, or_raise, raise_if, transaction, adjust_wallet, debit_wallet,
  create_transaction, create_entry, claim_in, create_in, ◌>>=◌, ◌>>◌,
}
use farm_backend.Escrow.Env.{Env, given}
use farm_backend.Escrow.{is_some, active_wallet}
use farm_backend.Team.{payouts_create, resolve}
use farm_backend.AgentPayments.Tables.{
  Limits, ensure, Caller, r2, has_key, is_at, intent_rows, refund_rows,
}
use farm_backend.AgentPayments.Intents.{own_intent, cut}

-- The amount in atoms, or all that is left.
pub record RefundDto : Type 0 where
  pub amount : Option ℤ
  pub reason : Option Text

unfoldable pub keyed_refund : ℕ → Option Text → Db → Option (ℕ × PaymentRefund)
keyed_refund business_id none db = none
keyed_refund business_id (some key) db =
    find_first
      (λ (r : PaymentRefund). r.business_id == business_id && has_key key r.idempotency_key)
      db.payment_refunds

-- `where: { user_id: i.payer_user_id, is_active: true }`
unfoldable pub payer_wallet : Option ℕ → Db → Option (ℕ × Wallet)
payer_wallet none db =
    find_first (λ (w : Wallet). not (is_some w.user_id) && w.is_active) db.wallets
payer_wallet (some payer_id) db = active_wallet payer_id db

abbrev pub refund_entry : Env → ℕ → ℕ → ℕ → ℕ → Transaction
refund_entry env intent_id from to amount = record {
  reference = env.reference;
  sender_wallet_id = some from;
  receiver_wallet_id = some to;
  kind = transfer;
  status = completed_tx;
  amount = amount;
  fee = 0;
  net_amount = pos amount;
  metadata = record no_metadata { intent_id = some intent_id };
  created_at = env.now;
  processed_at = some env.now;
}

-- From the business to the payer; only a live refund moves money.
unfoldable pub move_refund : Env → ℕ → ℕ → Option ℕ → ℕ → Action (Option ℕ)
unfolding payer_wallet
move_refund env intent_id owner_id payer_id amount = do
  theirs ← gets (active_wallet owner_id)
  back ← gets (payer_wallet payer_id)
  from ← or_raise (not_found "Wallet not found") theirs
  to ← or_raise (not_found "Wallet not found") back
  raise_if from.1.is_frozen (forbidden "Business wallet is frozen")
  paid ← debit_wallet from.0 amount
  raise_if (not paid) (bad_request "Insufficient business balance for this refund")
  adjust_wallet to.0 (pos amount) (pos 0)
  txn ← create_transaction env.new_transaction (refund_entry env intent_id from.0 to.0 amount)
  create_entry (record {
    transaction_id = some txn;
    wallet_id = from.0;
    entry_type = debit;
    amount = pos amount;
    balance_before = some from.1.balance;
    balance_after = some (from.1.balance -ℤ pos amount);
  })
  create_entry (record {
    transaction_id = some txn;
    wallet_id = to.0;
    entry_type = credit;
    amount = pos amount;
    balance_before = some to.1.balance;
    balance_after = some (to.1.balance +ℤ pos amount);
  })
  pure (some txn)

-- What the transaction takes from the checks: the row that was read, and the amounts.
pub record Refunding : Type 0 where
  pub intent_id : ℕ
  pub read : Intent
  pub amount : ℕ
  pub total_refunded : ℕ
  pub reason : Option Text
  pub key : Option Text

abbrev pub refund_status : Intent → ℕ → IntentStatus
refund_status i total_refunded =
    if leb i.amount total_refunded then returned_all else partially_returned

-- The claim's condition: nobody has refunded since the row was read.
unfoldable pub is_as_read : Intent → Intent → Bool
is_as_read read r = r.amount_refunded == read.amount_refunded && is_at r.status read.status

abbrev pub return_part : Intent → ℕ → Intent → Intent
return_part read total_refunded i = record i {
  amount_refunded = total_refunded;
  status = refund_status read total_refunded;
}

abbrev pub refunding : ℕ → RefundDto → Option Text → Intent → ℕ → Refunding
refunding id dto key i amount = record {
  intent_id = id;
  read = i;
  amount = amount;
  total_refunded = r2 (i.amount_refunded + amount);
  reason = cut 255 dto.reason;
  key = key;
}

abbrev pub asked_amount : ℕ → Option ℤ → ℕ
asked_amount remaining none = r2 remaining
asked_amount remaining (some a) = r2 (pos_part a)

abbrev pub is_paid : IntentStatus → Bool
is_paid s = is_at s succeeded || is_at s partially_returned

module _ (env : Env) (ctx : Caller) (new_id : ℕ) where
  unfoldable pub move_if_live : Refunding → Action (Option ℕ)
  unfolding move_refund
  move_if_live p =
      if ctx.live
      then move_refund env p.intent_id ctx.owner_user_id p.read.payer_user_id p.amount
      else pure none

  unfoldable pub refund_payment_tx : Refunding → Action (ℕ × PaymentRefund)
  unfolding is_as_read move_if_live
  refund_payment_tx p = do
    claimed ←
        claim_in intent_rows p.intent_id (is_as_read p.read) (return_part p.read p.total_refunded)
    raise_if (not claimed) (conflict "The payment changed; try again")
    txn ← move_if_live p
    let row : PaymentRefund = record {
      intent_id = p.intent_id;
      business_id = ctx.business_id;
      created_by = ctx.actor_user_id;
      live_mode = ctx.live;
      amount = p.amount;
      reason = p.reason;
      transaction_id = txn;
      idempotency_key = p.key;
    }
    create_in refund_rows new_id row
    pure (new_id, row)

  unfoldable pub refund_checked : ℕ → RefundDto → Option Text → Action (ℕ × PaymentRefund)
  unfolding refund_payment_tx
  refund_checked id dto key = do
    i ← own_intent env.now ctx.business_id id (some ctx.live)
    raise_if (not (is_paid i.status)) (conflict "Only paid intents can be refunded")
    let remaining = r2 (i.amount - i.amount_refunded)
    let amount = asked_amount remaining dto.amount
    raise_if (amount == 0) (bad_request "Refund amount must be positive")
    raise_if (ltb remaining amount) (bad_request "At most the rest can still be refunded")
    transaction (refund_payment_tx (refunding id dto key i amount))

  unfoldable pub answer_refund :
      Option (ℕ × PaymentRefund) → Action (ℕ × PaymentRefund) → Action (ℕ × PaymentRefund)
  answer_refund none k = k
  answer_refund (some r) k = pure r

  unfoldable pub refund : Limits → ℕ → RefundDto → Option Text → Action (ℕ × PaymentRefund)
  unfolding refund_checked keyed_refund answer_refund
  refund l id dto idem = do
    ensure l
    found ← gets (keyed_refund ctx.business_id (given idem))
    answer_refund found (refund_checked id dto (given idem))

-- A member of the business's team with the right to pay out, and that member's PIN.
unfoldable pub refund_from_dashboard :
    Env → Limits → ℕ → ℕ → ℕ → RefundDto → Text → Option Text → Action (ℕ × PaymentRefund)
unfolding refund
refund_from_dashboard env l user_id new_id id dto pin idem = do
  actor ← resolve user_id payouts_create
  verify_pin env.bcrypt user_id pin
  refund env
      (record {
        business_id = actor.business_id;
        owner_user_id = actor.owner_user_id;
        actor_user_id = some user_id;
        live = true;
      })
      new_id l id dto idem
