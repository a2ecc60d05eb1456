-- ===== src/Auth/Lockout.antt =====
-- The limit on wrong PINs.
use farm_backend.Prelude.{
  ℕ, ◌+◌, ◌≤◌, ◌<◌, ⊤, ◌≡◌, refl, true, false, some, List, [], ◌∷◌, arith, dec_lt, length,
}
use farm_backend.Prelude.Text.{Text, text_eq_refl}
use farm_backend.Prelude.Table.{find, find-modify}
use farm_backend.Store.{
  Db, User, Result, ok, err, forbidden, unauthorized, update_user, raise, raise_if, gets, or_raise,
  ◌>>=◌, ◌>>◌,
}
use farm_backend.Auth.Pin.{
  Bcrypt, max_pin_attempts, is_pin, failed_once, with_pin, verify_pin, change_pin,
}

-- The tables after some calls of `verifyPin`, whatever they answer.
unfoldable pub after_pins : Bcrypt → ℕ → List Text → Db → Db
after_pins b user_id [] db = db
after_pins b user_id (p ∷ ps) db = after_pins b user_id ps (verify_pin b user_id p db).1

abbrev pub AllWrong : Bcrypt → Text → List Text → Type 0
AllWrong b h [] = ⊤
AllWrong b h (p ∷ ps) = (b.compare p h ≡ false) × AllWrong b h ps

module _ (b : Bcrypt) (user_id : ℕ) (db : Db) (u : User) (h : Text)
    (found : find user_id db.users ≡ some u) (has_pin : u.pin_hash ≡ some h) where
  -- Once five attempts have failed, no PIN is compared any more, and nothing is written.
  pub verify_locked :
      (pin : Text)
      → max_pin_attempts ≤ u.failed_pin_attempts
      → verify_pin b user_id pin db ≡ (err (forbidden "PIN locked. Contact support."), db)
  unfolding verify_pin update_user raise raise_if gets or_raise ◌>>=◌ ◌>>◌
  verify_locked pin locked = ground arith

  verify_wrong :
      (pin : Text)
      → u.failed_pin_attempts < max_pin_attempts
      → b.compare pin h ≡ false
      → find user_id (verify_pin b user_id pin db).1.users ≡ some (failed_once u)
  unfolding verify_pin update_user raise raise_if gets or_raise ◌>>=◌ ◌>>◌
  verify_wrong pin left wrong =
      rw (found, has_pin, wrong) (ground (arith, find-modify user_id user_id failed_once db.users))

abbrev locked : Result ⊤
locked = err (forbidden "PIN locked. Contact support.")

still_locked :
    (b : Bcrypt) (user_id : ℕ) (h : Text) (ps : List Text) (pin : Text) (db : Db) (u : User)
    → find user_id db.users ≡ some u
    → u.pin_hash ≡ some h
    → max_pin_attempts ≤ u.failed_pin_attempts
    → let db' = after_pins b user_id ps db in verify_pin b user_id pin db' ≡ (locked, db')
unfolding after_pins
still_locked b user_id h [] pin db u found has_pin full =
    verify_locked b user_id db u h found has_pin pin full
still_locked b user_id h (p ∷ ps) pin db u found has_pin full =
    rw (verify_locked b user_id db u h found has_pin p full)
      (still_locked b user_id h ps pin db u found has_pin full)

-- Take a user with a PIN, and wrong PINs that bring the failed attempts to five or more. After
-- `verifyPin` has been given them, it refuses every PIN, the right one included, and writes
-- nothing.
pub five_wrong_pins_lock :
    (b : Bcrypt) (user_id : ℕ) (h : Text) (ps : List Text) (pin : Text) (db : Db) (u : User)
    → find user_id db.users ≡ some u
    → u.pin_hash ≡ some h
    → AllWrong b h ps
    → max_pin_attempts ≤ u.failed_pin_attempts + length ps
    → let db' = after_pins b user_id ps db in verify_pin b user_id pin db' ≡ (locked, db')
unfolding after_pins
five_wrong_pins_lock b user_id h [] pin db u found has_pin wrong enough =
    verify_locked b user_id db u h found has_pin pin (omega arith)
five_wrong_pins_lock b user_id h (p ∷ ps) pin db u found has_pin wrong enough =
    elim (dec_lt u.failed_pin_attempts max_pin_attempts) [
      | yes left ↦
          five_wrong_pins_lock b user_id h ps pin (verify_pin b user_id p db).1 (failed_once u)
            (verify_wrong b user_id db u h found has_pin p left wrong.0) has_pin wrong.1
            (omega arith)
      | no over ↦
          rw (verify_locked b user_id db u h found has_pin p (omega arith))
            (still_locked b user_id h ps pin db u found has_pin (omega arith))
    ]

-- A right PIN is accepted while fewer than five attempts have failed.
verify_right :
    (b : Bcrypt) (user_id : ℕ) (pin h : Text) (db : Db) {u : User}
    → find user_id db.users ≡ some u
    → u.pin_hash ≡ some h
    → u.failed_pin_attempts < max_pin_attempts
    → b.compare pin h ≡ true
    → (verify_pin b user_id pin db).0 ≡ ok tt
unfolding verify_pin update_user raise_if gets or_raise ◌>>=◌ ◌>>◌
verify_right b user_id pin h db found has_pin left right = rw (found, has_pin, right) (ground arith)

module _ (b : Bcrypt) (salt user_id : ℕ) (old_pin new_pin h : Text) (db : Db) {u : User}
    (found : find user_id db.users ≡ some u) (has_pin : u.pin_hash ≡ some h) where
  -- `changePin` with the wrong old PIN writes nothing: no attempt is counted.
  pub change_pin_wrong :
      b.compare old_pin h ≡ false
      → is_pin new_pin ≡ true
      → change_pin b salt user_id old_pin new_pin new_pin db
        ≡ (err (unauthorized "Old PIN is incorrect"), db)
  unfolding change_pin update_user raise_if gets or_raise ◌>>=◌ ◌>>◌
  change_pin_wrong wrong good = rw (text_eq_refl new_pin, good, found, has_pin, wrong) refl

  change_pin_right :
      b.compare old_pin h ≡ true
      → is_pin new_pin ≡ true
      → let (r, db') = change_pin b salt user_id old_pin new_pin new_pin db in
        (r ≡ ok tt) × (find user_id db'.users ≡ some (with_pin (b.hash salt new_pin) u))
  unfolding change_pin update_user raise_if gets or_raise ◌>>=◌ ◌>>◌
  change_pin_right right good =
      rw (text_eq_refl new_pin, good, found, has_pin, right)
        (ground (arith, find-modify user_id user_id (with_pin (b.hash salt new_pin)) db.users))

  -- For a user whose PIN is locked and a well-formed new PIN, `changePin` still compares the old
  -- PIN that it is given: where that is wrong it says so and leaves every table as it was, so that
  -- it can be tried without end, while `verifyPin` refuses to compare it and writes nothing.
  pub change_pin_ignores_lock :
      max_pin_attempts ≤ u.failed_pin_attempts
      → is_pin new_pin ≡ true
      → b.compare old_pin h ≡ false
      → (verify_pin b user_id old_pin db ≡ (locked, db))
        × (change_pin b salt user_id old_pin new_pin new_pin db
            ≡ (err (unauthorized "Old PIN is incorrect"), db))
  change_pin_ignores_lock full good wrong =
      (verify_locked b user_id db u h found has_pin old_pin full, change_pin_wrong wrong good)

  -- For a user whose PIN is locked and a well-formed new PIN, `changePin` with the right old PIN,
  -- which `verifyPin` refuses, succeeds, and `verifyPin` then accepts the new PIN: the lock is
  -- gone.
  pub change_pin_unlocks :
      max_pin_attempts ≤ u.failed_pin_attempts
      → is_pin new_pin ≡ true
      → b.compare old_pin h ≡ true
      → let (r, db') = change_pin b salt user_id old_pin new_pin new_pin db in
        (verify_pin b user_id old_pin db ≡ (locked, db))
        × (r ≡ ok tt)
        × ((verify_pin b user_id new_pin db').0 ≡ ok tt)
  change_pin_unlocks full good right = (
    verify_locked b user_id db u h found has_pin old_pin full,
    (change_pin_right right good).0,
    verify_right b user_id new_pin (b.hash salt new_pin)
        (change_pin b salt user_id old_pin new_pin new_pin db).1 (change_pin_right right good).1
        refl (omega arith) (b.compare_hash salt new_pin),
  )
