-- ===== src/Auth/Pin.antt =====
-- `setPin`, `verifyPin` and `changePin` of src/auth/auth.service.ts. The activity log that setting
-- and changing a PIN write is not modelled. bcrypt is a parameter.
use farm_backend.Prelude.{
  ℕ, ◌+◌, ⊤, ◌≡◌, Bool, true, false, not, Option, none, some, [], ◌∷◌, ◌&&◌, leb, length,
}
use farm_backend.Prelude.Text.{Text, text_eq}
use farm_backend.Prelude.Table.{find}
use farm_backend.Store.{
  User, Action, bad_request, unauthorized, forbidden, not_found, raise, gets, or_raise, raise_if,
  update_user, ◌>>=◌, ◌>>◌,
}

-- bcrypt: a hash depends on a salt, and a comparison reads the salt from the hash.
pub record Bcrypt : Type 0 where
  pub hash : ℕ → Text → Text
  pub compare : Text → Text → Bool
  pub compare_hash : (salt : ℕ) (pin : Text) → compare pin (hash salt pin) ≡ true

abbrev pub max_pin_attempts : ℕ
max_pin_attempts = 5

-- `/^\d{4,6}$/`
abbrev pub are_digits : Text → Bool
are_digits [] = true
are_digits (c ∷ s) = leb b'0' c && leb c b'9' && are_digits s

unfoldable pub is_pin : Text → Bool
is_pin s = leb 4 (length s) && leb (length s) 6 && are_digits s

-- The hash and the failed attempts of a user who has a PIN.
unfoldable pub pin_of : Option User → Option (Text × ℕ)
pin_of none = none
pin_of (some u) = elim u.pin_hash [ none ↦ none | some h ↦ some (h, u.failed_pin_attempts) ]

abbrev pub failed_once : User → User
failed_once u = record u { failed_pin_attempts = u.failed_pin_attempts + 1 }

abbrev pub cleared : User → User
cleared u = record u { failed_pin_attempts = 0 }

abbrev pub with_pin : Text → User → User
with_pin h u = record u { pin_hash = some h; failed_pin_attempts = 0 }

-- The end of `verifyPin`, after bcrypt has answered.
unfoldable pub settle_pin : ℕ → Bool → Action ⊤
settle_pin user_id true = update_user user_id cleared
settle_pin user_id false = do update_user user_id failed_once; raise (unauthorized "Incorrect PIN.")

unfoldable pub verify_pin : Bcrypt → ℕ → Text → Action ⊤
unfolding pin_of settle_pin
verify_pin b user_id pin = do
  user ← gets (λ db. pin_of (find user_id db.users))
  found ← or_raise (bad_request "PIN not set. Please set a PIN first.") user
  raise_if (leb max_pin_attempts found.1) (forbidden "PIN locked. Contact support.")
  settle_pin user_id (b.compare pin found.0)

unfoldable pub set_pin : Bcrypt → ℕ → ℕ → Text → Text → Action ⊤
unfolding is_pin
set_pin b salt user_id pin confirm_pin = do
  raise_if (not (text_eq pin confirm_pin)) (bad_request "PINs do not match")
  raise_if (not (is_pin pin)) (bad_request "PIN must be 4-6 digits")
  found ← gets (λ db. find user_id db.users)
  user ← or_raise (not_found "User not found") found
  raise_if (elim user.pin_hash [ none ↦ false | some _ ↦ true ])
      (forbidden "PIN already exists. Use Change PIN instead.")
  update_user user_id (with_pin (b.hash salt pin))

unfoldable pub change_pin : Bcrypt → ℕ → ℕ → Text → Text → Text → Action ⊤
unfolding is_pin pin_of
change_pin b salt user_id old_pin new_pin confirm_pin = do
  raise_if (not (text_eq new_pin confirm_pin)) (bad_request "New PINs do not match")
  raise_if (not (is_pin new_pin)) (bad_request "PIN must be 4-6 digits")
  user ← gets (λ db. pin_of (find user_id db.users))
  found ← or_raise (bad_request "No PIN found") user
  raise_if (not (b.compare old_pin found.0)) (unauthorized "Old PIN is incorrect")
  update_user user_id (with_pin (b.hash salt new_pin))
