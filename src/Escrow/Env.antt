-- ===== src/Escrow/Env.antt =====
-- What a handler of the escrow service takes from outside the tables.
use farm_backend.Prelude.{ℕ, ⊤, Bool, Option, none, some, not, [], ◌∷◌, if◌then◌else◌}
use farm_backend.Prelude.Text.{Text}
use farm_backend.Fees.{FeeKey, FeeRule}
use farm_backend.Auth.{Bcrypt, verify_pin, verify_device}
use farm_backend.Store.{Action, bad_request, raise, raise_if, ◌>>=◌}

-- The clock, the schedule that `FeesService.rule` answers with, the hash functions, and the ids that
-- the database and `generateTxReference` choose for new rows.
pub record Env : Type 0 where
  pub now : ℕ
  pub rule : FeeKey → FeeRule
  pub bcrypt : Bcrypt
  pub sha256 : Text → Text
  pub new_escrow : ℕ
  pub new_transaction : ℕ
  pub reference : ℕ

-- The part of a request that shows who sends it.
pub record Proof : Type 0 where
  pub pin : Option Text
  pub biometric_auth : Bool
  pub device_fingerprint : Option Text

-- An empty text is as good as none to the code (`!dto.pin`).
abbrev pub given : Option Text → Option Text
given none = none
given (some t) = elim t [ [] ↦ none | c ∷ s ↦ some (c ∷ s) ]

unfoldable pub check_device : Env → ℕ → Option Text → Action ⊤
check_device env user_id none =
    raise (bad_request "Device fingerprint required for biometric authorization")
check_device env user_id (some fingerprint) = do
  trusted ← verify_device env.sha256 env.now user_id fingerprint
  raise_if (not trusted) (bad_request "Biometric device verification failed")

unfoldable pub check_pin : Env → ℕ → Option Text → Action ⊤
check_pin env user_id none = raise (bad_request "Transaction PIN is required")
check_pin env user_id (some pin) = verify_pin env.bcrypt user_id pin

-- The device or the PIN, in `create` and in `release`.
unfoldable pub authorize : Env → ℕ → Proof → Action ⊤
unfolding check_device check_pin
authorize env user_id p =
    if p.biometric_auth
    then check_device env user_id (given p.device_fingerprint)
    else check_pin env user_id (given p.pin)
