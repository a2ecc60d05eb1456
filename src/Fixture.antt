-- ===== src/Fixture.antt =====
-- Concrete tables and environments for the tests of the other modules.
use farm_backend.Prelude.{ℕ, refl, Bool, true, false, none, some, [], ◌∷◌, arith}
use farm_backend.Prelude.Int.{ℤ, pos}
use farm_backend.Prelude.Number.{JsNumber, not_finite}
use farm_backend.Prelude.Text.{Text, codes, text_eq, text_eq_refl}
use farm_backend.Fees.{FeeKey, default_rule, default_percent, fee_defaults}
use farm_backend.Fees.Bounds.{fee-le-amount}
use farm_backend.Auth.{Bcrypt}
use farm_backend.Store.{empty_db, Db, User, Wallet, Escrow, active}
use farm_backend.Escrow.{Media}
use farm_backend.Escrow.Env.{Env, Proof}
use farm_backend.Escrow.Settle.{IsFeeFair}

-- A hash that keeps the PIN in the clear stands in for bcrypt.
abbrev pub plain_bcrypt : Bcrypt
plain_bcrypt = record {
  hash = λ salt pin. pin;
  compare = text_eq;
  compare_hash = λ salt pin. text_eq_refl pin;
}

abbrev pub no_settings : FeeKey → JsNumber
no_settings key = not_finite

abbrev pub user : Text → Bool → User
user name is_super_admin = record {
  username = name;
  phone = codes "0700";
  email = none;
  is_super_admin = is_super_admin;
  is_deleted = false;
  is_active = true;
  pin_hash = some (codes "1234");
  failed_pin_attempts = 0;
  biometric = none;
}

abbrev pub wallet : ℕ → ℤ → ℤ → Wallet
wallet user_id balance locked = record {
  user_id = some user_id;
  wallet_address = codes "FARM";
  balance = balance;
  locked_balance = locked;
  is_active = true;
  is_frozen = false;
}

-- 100 FARM of user 1 for user 2, of which nothing is released.
abbrev pub deal : Escrow
deal = record {
  reference_code = 7;
  buyer_id = some 1;
  seller_id = some 2;
  arbiter_id = none;
  buyer_wallet_id = some 1;
  seller_wallet_id = some 2;
  amount = 10_000_000_000;
  fee = 150_000_000;
  status = active;
  title = codes "Maize";
  description = none;
  evidence = none;
  created_at = 0;
  funded_at = some 0;
  released_at = none;
  disputed_at = none;
  resolved_at = none;
  auto_release_at = 604_800_000;
  resolution_note = none;
  released_amount = 0;
}

-- A buyer with 500 FARM of which 100 are locked, a seller, and the platform.
abbrev pub market : Db
market = record empty_db {
  users =
      (1, user (codes "amina") false)
      ∷ (2, user (codes "brian") false)
      ∷ (3, user (codes "farm") true)
      ∷ [];
  wallets =
      (1, wallet 1 (pos 50_000_000_000) (pos 10_000_000_000))
      ∷ (2, wallet 2 (pos 0) (pos 0))
      ∷ (3, wallet 3 (pos 0) (pos 0))
      ∷ [];
  escrows = (1, deal) ∷ [];
}

abbrev pub env : Env
env = record {
  now = 86_400_000;
  rule = default_rule no_settings;
  bcrypt = plain_bcrypt;
  sha256 = λ t. t;
  new_escrow = 2;
  new_transaction = 1;
  reference = 8;
}

abbrev pub with_pin_only : Proof
with_pin_only = record {
  pin = some (codes "1234");
  biometric_auth = false;
  device_fingerprint = none;
}

pub env-IsFeeFair : IsFeeFair env
unfolding default_rule default_percent fee_defaults
env-IsFeeFair amount =
    fee-le-amount (default_rule no_settings FeeKey.escrow_release) amount 2 (omega arith) refl refl

-- Nothing is uploaded, and no URL is hosted.
abbrev pub no_media : Media
no_media = record {
  parse_url = λ t. none;
  decoded_length = λ t. 0;
  reencoded = λ t. t;
  is_configured = false;
  upload = λ mime base64 id. none;
}
