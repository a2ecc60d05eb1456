-- ===== src/Auth/Harmless.antt =====
-- `verifyPin` and `verifyDevice`: which rows they write.
use farm_backend.Prelude.{ℕ, Bool, true, false, not, Option, none, some, leb}
use farm_backend.Prelude.Text.{Text, text_eq}
use farm_backend.Prelude.Table.{find}
use farm_backend.Store.{Db, User, Biometric, Result, update_user, write_user}
use farm_backend.Store.Rules.{
  Post, returns, raises, Post-gets, Post-or_raise, Post-check, Post-then, Post-raise, Post-pure,
  Post-branch,
}
use farm_backend.Store.Ledger.{SameMoney}
use farm_backend.Auth.Pin.{
  Bcrypt, max_pin_attempts, pin_of, settle_pin, verify_pin, failed_once, cleared,
}
use farm_backend.Auth.Device.{settle_device, verify_device, biometric_of}

-- Whether an action returns or raises, the rows about money are as they were at `db`.
abbrev pub IsHarmless : {A : Type 0} → Db → Result A × Db → Type 0
IsHarmless {A} db r = Post {A = A} (SameMoney db) (λ _. SameMoney db) r

wrote_user :
    (k : ℕ) (f : User → User) (o : Option User) {db d : Db}
    → SameMoney db d
    → IsHarmless db (write_user k f o d)
unfolding write_user
wrote_user k f none h = raises h
wrote_user k f (some u) h = returns (record {
  wallets = h.wallets;
  escrows = h.escrows;
  transactions = h.transactions;
  ledger = h.ledger;
  members = h.members;
})

update_user-IsHarmless :
    (k : ℕ) (f : User → User) {db : Db} (d : Db)
    → SameMoney db d
    → IsHarmless db (update_user k f d)
unfolding update_user
update_user-IsHarmless k f d h = wrote_user k f (find k d.users) h

settle_pin-IsHarmless :
    (k : ℕ) (ok? : Bool) {db : Db} (d : Db) → SameMoney db d → IsHarmless db (settle_pin k ok? d)
unfolding settle_pin
settle_pin-IsHarmless k true d h = update_user-IsHarmless k cleared d h
settle_pin-IsHarmless k false d h =
    Post-then (update_user k failed_once) _ d (update_user-IsHarmless k failed_once d h)
      λ _ d' h'. Post-raise _ d' h'

pub verify_pin-IsHarmless :
    (b : Bcrypt) (k : ℕ) (pin : Text) {db : Db} (d : Db)
    → SameMoney db d
    → IsHarmless db (verify_pin b k pin d)
unfolding verify_pin
verify_pin-IsHarmless b k pin d h =
    Post-gets (λ d. pin_of (find k d.users)) _ d
      (Post-or_raise _ (pin_of (find k d.users)) _ d h λ found _.
        Post-check (leb max_pin_attempts found.1) _ _ d h
          λ _. settle_pin-IsHarmless k (b.compare pin found.0) d h)

settle_device-IsHarmless :
    (now k : ℕ) (current : Text) (o : Option Biometric) {db : Db} (d : Db)
    → SameMoney db d
    → IsHarmless db (settle_device now k current o d)
unfolding settle_device
settle_device-IsHarmless now k current none d h = Post-pure false d h
settle_device-IsHarmless now k current (some s) d h =
    Post-branch (not s.enabled) _ _ d (λ _. Post-pure false d h)
      λ _.
        Post-branch (text_eq current s.device_fingerprint) _ _ d
          (λ _.
            Post-then (update_user k _) _ d (update_user-IsHarmless k _ d h)
              λ _ d' h'. Post-pure true d' h')
          λ _.
            Post-then (update_user k _) _ d (update_user-IsHarmless k _ d h)
              λ _ d' h'. Post-pure false d' h'

pub verify_device-IsHarmless :
    (sha256 : Text → Text) (now k : ℕ) (fingerprint : Text) {db : Db} (d : Db)
    → SameMoney db d
    → IsHarmless db (verify_device sha256 now k fingerprint d)
unfolding verify_device
verify_device-IsHarmless sha256 now k fingerprint d h =
    Post-gets (λ d. biometric_of (find k d.users)) _ d
      (settle_device-IsHarmless now k (sha256 fingerprint) (biometric_of (find k d.users)) d h)
