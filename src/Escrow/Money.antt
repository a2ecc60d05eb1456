-- ===== src/Escrow/Money.antt =====
-- The amounts of an escrow and the platform's wallet.
use farm_backend.Prelude.{
  ℕ, ◌-◌, ⊤, Bool, false, not, Option, none, some, ◌&&◌, ◌==◌, if◌then◌else◌, ltb,
}
use farm_backend.Prelude.Int.{pos}
use farm_backend.Prelude.Table.{find_first}
use farm_backend.Store.{
  Db, User, Wallet, Escrow, Action, credit, not_found, pure, gets, or_raise, adjust_wallet,
  create_entry, ◌>>=◌, ◌>>◌,
}

-- `remainingAmount`: what milestone releases have left. ℕ's subtraction stops at 0, as the code's
-- test does.
unfoldable pub remaining_amount : Escrow → ℕ
remaining_amount e = e.amount - e.released_amount

abbrev pub is_id : ℕ → Option ℕ → Bool
is_id k none = false
is_id k (some j) = j == k

-- `include: { wallets: { where: { is_active: true }, take: 1 } }`
unfoldable pub active_wallet : ℕ → Db → Option (ℕ × Wallet)
active_wallet user_id db =
    find_first (λ (w : Wallet). is_id user_id w.user_id && w.is_active) db.wallets

abbrev pub platform_of : Option (ℕ × User) → Db → Option (ℕ × Wallet)
platform_of none db = none
platform_of (some u) db = active_wallet u.0 db

-- The first active wallet of the first super admin who is not deleted.
unfoldable pub platform_wallet : Db → Option (ℕ × Wallet)
unfolding active_wallet
platform_wallet db =
    platform_of (find_first (λ (u : User). u.is_super_admin && not u.is_deleted) db.users) db

unfoldable pub pay_platform : ℕ → Action ⊤
unfolding platform_wallet
pay_platform amount = do
  found ← gets platform_wallet
  wallet ← or_raise (not_found "Superadmin wallet not found") found
  adjust_wallet wallet.0 (pos amount) (pos 0)
  create_entry (record {
    transaction_id = none;
    wallet_id = wallet.0;
    entry_type = credit;
    amount = pos amount;
    balance_before = none;
    balance_after = none;
  })

-- `creditSuperadminWalletInTx`
unfoldable pub credit_superadmin : ℕ → Action ⊤
unfolding pay_platform
credit_superadmin amount = if ltb 0 amount then pay_platform amount else pure tt
