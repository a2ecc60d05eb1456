-- ===== src/Wallets/Platform.antt =====
-- `creditPlatformInTx` and `creditWalletInTx` of src/fees/fee-defaults.ts.
use farm_backend.Prelude.{ℕ, ⊤, Option, some, ltb, if◌then◌else◌}
use farm_backend.Prelude.Int.{pos, ◌+ℤ◌}
use farm_backend.Prelude.Table.{find}
use farm_backend.Store.{
  Action, internal, credit, pure, gets, or_raise, adjust_wallet, create_entry, ◌>>=◌, ◌>>◌,
}
use farm_backend.Escrow.{platform_wallet}

unfoldable pub credit_found : ℕ → ℕ → Option ℕ → Action ⊤
credit_found wallet_id amount transaction_id = do
  found ← gets (λ db. find wallet_id db.wallets)
  before ← or_raise (internal "Fee wallet not found") found
  adjust_wallet wallet_id (pos amount) (pos 0)
  create_entry (record {
    transaction_id = transaction_id;
    wallet_id = wallet_id;
    entry_type = credit;
    amount = pos amount;
    balance_before = some before.balance;
    balance_after = some (before.balance +ℤ pos amount);
  })

-- `creditWalletInTx`
unfoldable pub credit_wallet : ℕ → ℕ → Option ℕ → Action ⊤
unfolding credit_found
credit_wallet wallet_id amount transaction_id =
    if ltb 0 amount then credit_found wallet_id amount transaction_id else pure tt

unfoldable pub credit_admin : ℕ → Option ℕ → Action ⊤
unfolding credit_wallet
credit_admin amount transaction_id = do
  found ← gets platform_wallet
  wallet ← or_raise (internal "Platform fee wallet not found") found
  credit_wallet wallet.0 amount transaction_id

-- `creditPlatformInTx`
unfoldable pub credit_platform : ℕ → Option ℕ → Action ⊤
unfolding credit_admin
credit_platform amount transaction_id =
    if ltb 0 amount then credit_admin amount transaction_id else pure tt
