-- ===== src/Auth/Examples.antt =====
-- Tests and examples of the PIN.
use farm_backend.Prelude.{ℕ, ◌≡◌, refl, true, false, none, some, [], ◌∷◌, arith}
use farm_backend.Prelude.Text.{Text, codes, text_eq, text_eq_refl}
use farm_backend.Prelude.Table.{find}
use farm_backend.Store.{empty_db, Db, User, ok, err, forbidden, unauthorized}
use farm_backend.Auth.Pin.{Bcrypt, is_pin, verify_pin, change_pin}
use farm_backend.Auth.Lockout.{
  after_pins, five_wrong_pins_lock, change_pin_ignores_lock, change_pin_unlocks,
}

-- A hash that keeps the PIN in the clear stands in for bcrypt.
abbrev plain : Bcrypt
plain = record {
  hash = λ salt pin. pin;
  compare = text_eq;
  compare_hash = λ salt pin. text_eq_refl pin;
}

abbrev amina : ℕ → User
amina failed = record {
  username = codes "amina";
  phone = codes "0700";
  email = none;
  is_super_admin = false;
  is_deleted = false;
  is_active = true;
  pin_hash = some (codes "1234");
  failed_pin_attempts = failed;
  biometric = none;
}

abbrev users : ℕ → Db
users failed = record empty_db { users = (1, amina failed) ∷ [] }

abbrev guess : Text
guess = codes "1111"

five_wrong_pins_lock_example :
    let db = after_pins plain 1 (guess ∷ guess ∷ guess ∷ guess ∷ guess ∷ []) (users 0) in
    verify_pin plain 1 (codes "1234") db ≡ (err (forbidden "PIN locked. Contact support."), db)
unfolding find text_eq
five_wrong_pins_lock_example =
    five_wrong_pins_lock plain 1 (codes "1234") (guess ∷ guess ∷ guess ∷ guess ∷ guess ∷ [])
      (codes "1234") (users 0) (amina 0) refl refl (refl, (refl, (refl, (refl, (refl, tt)))))
      (omega arith)

change_pin_ignores_lock_example :
    (verify_pin plain 1 guess (users 5) ≡ (err (forbidden "PIN locked. Contact support."), users 5))
    × (change_pin plain 0 1 guess (codes "9999") (codes "9999") (users 5)
        ≡ (err (unauthorized "Old PIN is incorrect"), users 5))
unfolding find text_eq is_pin
change_pin_ignores_lock_example =
    change_pin_ignores_lock plain 0 1 guess (codes "9999") (codes "1234") (users 5) {u = amina 5}
      refl refl (omega arith) refl refl

change_pin_unlocks_example :
    let (r, db) = change_pin plain 0 1 (codes "1234") (codes "9999") (codes "9999") (users 5) in
    (verify_pin plain 1 (codes "1234") (users 5)
      ≡ (err (forbidden "PIN locked. Contact support."), users 5))
    × (r ≡ ok tt)
    × ((verify_pin plain 1 (codes "9999") db).0 ≡ ok tt)
unfolding find text_eq is_pin
change_pin_unlocks_example =
    change_pin_unlocks plain 0 1 (codes "1234") (codes "9999") (codes "1234") (users 5)
      {u = amina 5} refl refl (omega arith) refl refl
