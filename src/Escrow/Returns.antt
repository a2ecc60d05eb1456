-- ===== src/Escrow/Returns.antt =====
-- `executeRelease` and `executeRefund`: when they succeed, and what they leave.
use farm_backend.Prelude.{ℕ, ◌≡◌, refl, true, false, Option, some, ◌==◌, ltb, arith, not, ◌&&◌}
use farm_backend.Prelude.Int.{pos, negate, ◌-ℤ◌}
use farm_backend.Prelude.Number.{finite}
use farm_backend.Prelude.Table.{Table, find, find_first, modify, find-modify, find_first-modify}
use farm_backend.Fees.{FeeKey, compute_fee}
use farm_backend.Store.{
  Db, User, Wallet, Escrow, ok, moved, adjust_wallet, write_wallet, create_transaction,
  create_entry, update_many_escrow, claim_escrow, transaction, commit, pure, gets, or_raise,
  raise_if, next, ◌>>=◌, ◌>>◌,
}
use farm_backend.Escrow.Env.{Env}
use farm_backend.Escrow.Money.{
  remaining_amount, is_id, active_wallet, platform_wallet, pay_platform, credit_superadmin,
}
use farm_backend.Escrow.Release.{
  Resolution, status_eq, settled_from, release_row, pay_seller, release_locked, release_tx,
  execute_release,
}
use farm_backend.Escrow.Refund.{refund_row, refund_tx, execute_refund}
use farm_backend.Escrow.Settle.{release_row_keeps}
use farm_backend.Escrow.Giveback.{refund_row_keeps}

modified_self :
    {V : Type 0} (k : ℕ) (f : V → V) (t : Table V) {v : V}
    → find k t ≡ some v
    → find k (modify k f t) ≡ some (f v)
modified_self k f t found = rw (find-modify k k f t, found) (ground arith)

-- Take an escrow in the status that a refund starts from, active, or disputed where an admin
-- decides, and a caller's row that names a wallet that exists. `executeRefund` succeeds: it
-- answers what milestones have left of the escrow, marks the row as refunded, and lowers the
-- locked balance of that wallet, and not its balance, by as much.
pub refund_returns :
    (env : Env) (id bw : ℕ) (e r : Escrow) (w : Wallet) (res : Option Resolution) (db : Db)
    → find id db.escrows ≡ some r
    → status_eq r.status (settled_from res) ≡ true
    → e.buyer_wallet_id ≡ some bw
    → find bw db.wallets ≡ some w
    → let (out, d) = execute_refund env id e res db in
      (out ≡ ok (remaining_amount r))
      × (find id d.escrows ≡ some (refund_row env.now res r))
      × (find bw d.wallets ≡ some (moved (pos 0) (negate (pos (remaining_amount r))) w))
unfolding execute_refund refund_tx transaction commit update_many_escrow claim_escrow raise_if gets
    or_raise adjust_wallet write_wallet create_transaction pure next ◌>>=◌ ◌>>◌
refund_returns env id bw e r w res db found is_open wallet here =
    let again = modified_self id (refund_row env.now res) db.escrows found in
    let left = refund_row_keeps env.now r res in
    let paid =
      modified_self bw (moved (pos 0) (negate (pos (remaining_amount r)))) db.wallets here in
    rw (found, is_open, again, wallet, here, left) (refl, again, paid)

modified_other :
    {V : Type 0} (j k : ℕ) (f : V → V) (t : Table V) {v : V}
    → (k == j) ≡ false
    → find j t ≡ some v
    → find j (modify k f t) ≡ some v
modified_other j k f t other found = rw (find-modify j k f t, found, other) refl

-- Take an escrow in the status that a release starts from, active, or disputed where an admin
-- decides, of which milestones have left something; a caller's row with a positive amount that
-- names the buyer's and the seller's wallet; these wallets and the platform's, the first active
-- one of the first super admin, which exist and are three different ones; and a release fee that
-- is not zero. `executeRelease` succeeds: it answers what was left, marks the row as completed,
-- takes what was left of the buyer's balance and locked balance, adds it less the fee to the
-- seller's balance, and the fee to the platform's.
pub release_returns :
    (env : Env) (id bw sw pw : ℕ) (e r : Escrow) (wb ws wp : Wallet) (u : ℕ × User)
    (res : Option Resolution) (db : Db)
    → find id db.escrows ≡ some r
    → status_eq r.status (settled_from res) ≡ true
    → e.buyer_wallet_id ≡ some bw
    → e.seller_wallet_id ≡ some sw
    → (e.amount == 0) ≡ false
    → (remaining_amount r == 0) ≡ false
    → find bw db.wallets ≡ some wb
    → find sw db.wallets ≡ some ws
    → find pw db.wallets ≡ some wp
    → find_first (λ (u : User). u.is_super_admin && not u.is_deleted) db.users ≡ some u
    → active_wallet u.0 db ≡ some (pw, wp)
    → (bw == sw) ≡ false
    → (sw == bw) ≡ false
    → (bw == pw) ≡ false
    → (sw == pw) ≡ false
    → (pw == bw) ≡ false
    → (pw == sw) ≡ false
    → ltb 0 (compute_fee (env.rule FeeKey.escrow_release) (finite (pos (remaining_amount r))) 2)
      ≡ true
    → let amount = remaining_amount r in
      let fee = compute_fee (env.rule FeeKey.escrow_release) (finite (pos amount)) 2 in
      let (out, d) = execute_release env id e res db in
      (out ≡ ok amount)
      × (find id d.escrows ≡ some (release_row env.now res r))
      × (find bw d.wallets ≡ some (moved (negate (pos amount)) (negate (pos amount)) wb))
      × (find sw d.wallets ≡ some (moved (pos amount -ℤ pos fee) (pos 0) ws))
      × (find pw d.wallets ≡ some (moved (pos fee) (pos 0) wp))
unfolding execute_release release_tx release_locked pay_seller credit_superadmin pay_platform
    platform_wallet active_wallet create_entry transaction commit update_many_escrow claim_escrow
    raise_if gets or_raise adjust_wallet write_wallet create_transaction pure next ◌>>=◌ ◌>>◌
release_returns env id bw sw pw e r wb ws wp u res db found is_open buyer seller valued owes hb hs
      hp admin platform bs sb bp sp pb ps charged =
    let amount = remaining_amount r in
    let fee = compute_fee (env.rule FeeKey.escrow_release) (finite (pos amount)) 2 in
    let out = moved (negate (pos amount)) (negate (pos amount)) in
    let to = moved (pos amount -ℤ pos fee) (pos 0) in
    let income = moved (pos fee) (pos 0) in
    let ws₁ = modify bw out db.wallets in
    let ws₂ = modify sw to ws₁ in
    let again = modified_self id (release_row env.now res) db.escrows found in
    let left = release_row_keeps env.now r res in
    let hs₁ = modified_other sw bw out db.wallets bs hs in
    let hp₁ = modified_other pw bw out db.wallets bp hp in
    let hp₂ = modified_other pw sw to ws₁ sp hp₁ in
    let hb₁ = modified_self bw out db.wallets hb in
    let hb₂ = modified_other bw sw to ws₁ sb hb₁ in
    let hb₃ = modified_other bw pw income ws₂ pb hb₂ in
    let hs₂ = modified_self sw to ws₁ hs₁ in
    let hs₃ = modified_other sw pw income ws₂ ps hs₂ in
    let hp₃ = modified_self pw income ws₂ hp₂ in
    let p₁ =
      find_first-modify (λ (w : Wallet). is_id u.0 w.user_id && w.is_active) bw out db.wallets
        (λ w. refl) bp platform in
    let p₂ =
      find_first-modify (λ (w : Wallet). is_id u.0 w.user_id && w.is_active) sw to ws₁ (λ w. refl)
        sp p₁ in
    rw (buyer, seller, valued, found, is_open, again, left, owes, hb, hs₁, charged, admin, p₂, hp₂)
      (refl, again, hb₃, hs₃, hp₃)
