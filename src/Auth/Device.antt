-- ===== src/Auth/Device.antt =====
-- `verifyDevice` of src/security/security.service.ts. SHA-256 is a parameter.
use farm_backend.Prelude.{ℕ, ◌+◌, Bool, true, false, Option, none, some, not, if◌then◌else◌}
use farm_backend.Prelude.Text.{Text, text_eq}
use farm_backend.Prelude.Table.{find}
use farm_backend.Store.{User, Biometric, Action, pure, gets, update_user, ◌>>=◌, ◌>>◌}

abbrev pub on_biometric : (Biometric → Biometric) → User → User
on_biometric f u = record u { biometric = elim u.biometric [ none ↦ none | some s ↦ some (f s) ] }

abbrev pub device_failed : Biometric → Biometric
device_failed s = record s { failed_attempts = s.failed_attempts + 1 }

abbrev pub device_verified : ℕ → Biometric → Biometric
device_verified now s = record s {
  last_verified_at = some now;
  verification_count = s.verification_count + 1;
  failed_attempts = 0;
}

-- What is written once the settings are read; the answer is `trusted`.
unfoldable pub settle_device : ℕ → ℕ → Text → Option Biometric → Action Bool
settle_device now user_id current none = pure false
settle_device now user_id current (some s) =
    if not s.enabled
    then pure false
    else if text_eq current s.device_fingerprint
    then (update_user user_id (on_biometric (device_verified now)) >> pure true)
    else (update_user user_id (on_biometric device_failed) >> pure false)

abbrev pub biometric_of : Option User → Option Biometric
biometric_of none = none
biometric_of (some u) = u.biometric

unfoldable pub verify_device : (Text → Text) → ℕ → ℕ → Text → Action Bool
unfolding settle_device
verify_device sha256 now user_id fingerprint = do
  settings ← gets (λ db. biometric_of (find user_id db.users))
  settle_device now user_id (sha256 fingerprint) settings
