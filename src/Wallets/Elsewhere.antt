-- ===== src/Wallets/Elsewhere.antt =====
-- `sendFunds` writes to users, wallets, transactions and the ledger only: whatever holds of another
-- table holds after it, whether it returns or raises.
use farm_backend.Prelude.{ℕ, Bool, true, false, not, Option, none, some, ltb, leb}
use farm_backend.Prelude.Int.{pos, pos_part, negate, ◌+ℤ◌, ◌-ℤ◌}
use farm_backend.Prelude.Text.{Text, text_eq}
use farm_backend.Prelude.Table.{Table, find}
use farm_backend.Auth.{
  Bcrypt, max_pin_attempts, pin_of, settle_pin, verify_pin, failed_once, cleared, settle_device,
  verify_device, biometric_of,
}
use farm_backend.Store.{
  Db, Biometric, Wallet, Field, update_user, pure, adjust_wallet, create_transaction, create_entry,
  Action,
}
use farm_backend.Store.Rules.{
  Post, Post-bind, Post-then, Post-gets, Post-or_raise, Post-pure, Post-raise, Post-raise_if,
  Post-branch, Post-check, Post-transaction, forget,
}
use farm_backend.Store.Side.{
  On, On-write_user, On-adjust_wallet, On-create_transaction, On-update_transaction,
  On-create_entry,
}
use farm_backend.Escrow.Env.{Env, given}
use farm_backend.Escrow.{active_wallet, platform_wallet}
use farm_backend.Wallets.Platform.{credit_found, credit_wallet, credit_admin, credit_platform}
use farm_backend.Wallets.Transfer.{
  SendDto, check_send_device, check_send_pin, authorize_send, recipient_wallet, sent, move_funds,
  send_from, send_tx, send_funds,
}

module _ {V : Type 0} (fd : Field V) (P : Table V → Type 0) where
  abbrev pub Stays : {A : Type 0} → Action A → Type 0
  Stays m = (d : Db) → On fd P d → Post (On fd P) (λ _. On fd P) (m d)

  settle_pin-Stays : (k : ℕ) (matches : Bool) → Stays (settle_pin k matches)
  unfolding settle_pin
  settle_pin-Stays k true d h = On-write_user fd P k cleared d h
  settle_pin-Stays k false d h =
      Post-then (update_user k failed_once) _ d (On-write_user fd P k failed_once d h)
        λ _ d' h'. Post-raise _ d' h'

  pub verify_pin-Stays : (b : Bcrypt) (k : ℕ) (pin : Text) → Stays (verify_pin b k pin)
  unfolding verify_pin
  verify_pin-Stays b k pin d h =
      Post-gets (λ d. pin_of (find k d.users)) _ d
        (Post-or_raise _ (pin_of (find k d.users)) _ d h λ found _.
          Post-check (leb max_pin_attempts found.1) _ _ d h
            λ _. settle_pin-Stays k (b.compare pin found.0) d h)

  settle_device-Stays :
      (now k : ℕ) (current : Text) (o : Option Biometric) → Stays (settle_device now k current o)
  unfolding settle_device
  settle_device-Stays now k current none d h = Post-pure false d h
  settle_device-Stays now k current (some s) d h =
      Post-branch (not s.enabled) _ _ d (λ _. Post-pure false d h)
        λ _.
          Post-branch (text_eq current s.device_fingerprint) _ _ d
            (λ _.
              Post-then (update_user k _) _ d (On-write_user fd P k _ d h)
                λ _ d' h'. Post-pure true d' h')
            λ _.
              Post-then (update_user k _) _ d (On-write_user fd P k _ d h)
                λ _ d' h'. Post-pure false d' h'

  check_send_device-Stays :
      (env : Env) (k : ℕ) (o : Option Text) → Stays (check_send_device env k o)
  unfolding check_send_device verify_device
  check_send_device-Stays env k none d h = Post-raise _ d h
  check_send_device-Stays env k (some f) d h =
      Post-bind (verify_device env.sha256 env.now k f) _ d
        (Post-gets (λ d. biometric_of (find k d.users)) _ d
          (settle_device-Stays env.now k (env.sha256 f) (biometric_of (find k d.users)) d h))
        λ trusted d' h'. Post-raise_if (not trusted) _ d' h' h'

  check_send_pin-Stays : (env : Env) (k : ℕ) (o : Option Text) → Stays (check_send_pin env k o)
  unfolding check_send_pin
  check_send_pin-Stays env k none d h = Post-raise _ d h
  check_send_pin-Stays env k (some pin) d h = verify_pin-Stays env.bcrypt k pin d h

  pub credit_platform-Stays : (amount : ℕ) (txn : Option ℕ) → Stays (credit_platform amount txn)
  unfolding credit_platform credit_admin credit_wallet credit_found
  credit_platform-Stays amount txn d h =
      Post-branch (ltb 0 amount) _ (pure tt) d
        (λ _. Post-gets platform_wallet _ d (
          Post-or_raise _ (platform_wallet d) _ d h λ w _.
            Post-branch (ltb 0 amount) (credit_found w.0 amount txn) (pure tt) d
              (λ _. Post-gets _ _ d (
                Post-or_raise _ (find w.0 d.wallets) _ d h λ before _.
                  Post-then (adjust_wallet w.0 (pos amount) (pos 0)) _ d
                    (On-adjust_wallet fd P w.0 (pos amount) (pos 0) d h)
                    λ _ d' h'. On-create_entry fd P _ d' h'))
              λ _. Post-pure tt d h))
        λ _. Post-pure tt d h

  move_funds-Stays :
      (env : Env) (who sender : ℕ) (wallet : Wallet) (receiver amount fee merchant_fee : ℕ)
      → Stays (move_funds env who sender wallet receiver amount fee merchant_fee)
  unfolding move_funds
  move_funds-Stays env who sender wallet receiver amount fee merchant_fee d h =
      let out = pos amount +ℤ pos fee in
      let received = pos amount -ℤ pos merchant_fee in
      Post-bind (create_transaction env.new_transaction _) _ d
        (On-create_transaction fd P env.new_transaction _ d h)
        λ txn d₁ h₁. Post-gets _ _ d₁ (
          Post-or_raise _ (find receiver d₁.wallets) _ d₁ h₁ λ theirs _.
            Post-bind (adjust_wallet sender (negate out) (pos 0)) _ d₁
              (On-adjust_wallet fd P sender (negate out) (pos 0) d₁ h₁)
              λ from d₂ h₂.
                Post-bind (adjust_wallet receiver received (pos 0)) _ d₂
                  (On-adjust_wallet fd P receiver received (pos 0) d₂ h₂)
                  λ to d₃ h₃.
                    Post-then (create_entry _) _ d₃ (On-create_entry fd P _ d₃ h₃) λ _ d₄ h₄.
                      Post-then (create_entry _) _ d₄ (On-create_entry fd P _ d₄ h₄) λ _ d₅ h₅.
                        Post-then (credit_platform merchant_fee (some txn)) _ d₅
                          (credit_platform-Stays merchant_fee (some txn) d₅ h₅)
                          λ _ d₆ h₆.
                            Post-then (credit_platform fee (some txn)) _ d₆
                              (credit_platform-Stays fee (some txn) d₆ h₆)
                              λ _ d₇ h₇.
                                Post-then _ _ d₇
                                  (On-update_transaction fd P txn (sent env.now) d₇ h₇)
                                  λ _ d₈ h₈. Post-pure _ d₈ h₈)

  send_tx-Stays :
      (env : Env) (today who : ℕ) (merchant_pays : Bool) (receiver amount : ℕ)
      → Stays (send_tx env today who merchant_pays receiver amount)
  unfolding send_tx send_from
  send_tx-Stays env today who merchant_pays receiver amount d h =
      Post-gets (active_wallet who) _ d (
        Post-or_raise _ (active_wallet who d) _ d h λ (sender, wallet) _. Post-check _ _ _ d h λ _.
          Post-check _ _ _ d h λ _. Post-gets _ _ d (
            Post-check _ _ _ d h λ _. Post-check _ _ _ d h λ _. Post-check _ _ _ d h λ _.
              Post-gets _ _ d (
                Post-check _ _ _ d h
                  λ _. move_funds-Stays env who sender wallet receiver amount _ _ d h)))

  pub send_funds-Stays :
      (env : Env) (today who : ℕ) (merchant_pays : Bool) (dto : SendDto)
      → Stays (send_funds env today who merchant_pays dto)
  unfolding send_funds authorize_send
  send_funds-Stays env today who merchant_pays dto d h = Post-check _ _ _ d h λ _.
      Post-then (authorize_send env who dto.proof) _ d
        (Post-branch dto.proof.biometric_auth _ _ d
          (λ _. check_send_device-Stays env who (given dto.proof.device_fingerprint) d h)
          λ _. check_send_pin-Stays env who (given dto.proof.pin) d h)
        λ _ d₁ h₁. Post-gets _ _ d₁ (
          Post-or_raise _ (recipient_wallet dto.recipient_identifier d₁) _ d₁ h₁ λ receiver _.
            Post-transaction (send_tx env today who merchant_pays receiver.0 (pos_part dto.amount))
              d₁ h₁
              (forget _
                (send_tx-Stays env today who merchant_pays receiver.0 (pos_part dto.amount) d₁ h₁)))
