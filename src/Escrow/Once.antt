-- ===== src/Escrow/Once.antt =====
-- Releases, refunds and milestones of an escrow that is settled already.
use farm_backend.Prelude.{
  ℕ, ◌≡◌, refl, ap, Bool, true, false, not, Option, none, some, ◌==◌, inl, inr, Bool-cases, arith,
  ◌⊎◌, subst,
}
use farm_backend.Prelude.Text.{Text}
use farm_backend.Prelude.Table.{find}
use farm_backend.Store.{
  Db, Escrow, Result, ok, err, Error, bad_request, Action, commit, or_raise, raise_if, transaction,
  next, adjust_wallet, create_transaction, claim_escrow, update_many_escrow, ◌>>=◌, ◌>>◌,
}
use farm_backend.Store.Rules.{
  Post, returns, raises, Any, Post-bind, Post-then, Post-gets, Post-or_raise, Post-pure, Post-check,
  Post-transaction,
}
use farm_backend.Escrow.Env.{Env}
use farm_backend.Escrow.Money.{remaining_amount}
use farm_backend.Escrow.Release.{
  Resolution, not_open, release_row, fresh_or, release_tx, execute_release,
}
use farm_backend.Escrow.Partial.{can_claim, claimed_part, over_claimed, partial_tx}
use farm_backend.Escrow.Refund.{refund_row, refund_tx, execute_refund}
use farm_backend.Escrow.Attachment.{Media}
use farm_backend.Escrow.Requests.{Reach, begin, serve}
use farm_backend.Escrow.Settled.{
  is_final, IsSettled, forget, update_many_settles, adjust_wallet-Stays, create_transaction-Stays,
}
use farm_backend.Escrow.Stays.{opens_settled_from, opens_can_claim, release_locked-Stays}
use farm_backend.Escrow.Guard.{request-Stays}

-- The action raises an exception and leaves every table as it was.
abbrev pub IsRefused : {A : Type 0} → Action A → Db → Type 0
IsRefused {A} m db = (e : Error) × (m db ≡ (err e, db))

-- A settled escrow is not claimed by an update that asks for an open one.
unclaimed :
    (id : ℕ) (p : Escrow → Bool) (f : Escrow → Escrow) (db : Db)
    → IsSettled id db
    → ((r : Escrow) → p r ≡ true → is_final r.status ≡ false)
    → update_many_escrow id p f db ≡ (ok false, db)
unfolding update_many_escrow claim_escrow
unclaimed id p f db s opens = rw s.found (elim (Bool-cases (p s.row)) [
  | inl passes ↦ let is_open = opens s.row passes in let closed = s.is_settled in absurd (cc)
  | inr fails ↦ rw fails refl
])

-- What begins with such an update and a test of its outcome is refused.
claim_refused :
    {B : Type 0} (id : ℕ) (p : Escrow → Bool) (f : Escrow → Escrow) (e : Error) (k : Action B)
    (db : Db)
    → update_many_escrow id p f db ≡ (ok false, db)
    → transaction (update_many_escrow id p f >>= λ claimed. raise_if (not claimed) e >> k) db
      ≡ (err e, db)
unfolding transaction commit raise_if next ◌>>=◌ ◌>>◌
claim_refused id p f e k db h = rw h refl

module _ (env : Env) (id : ℕ) (e : Escrow) (db : Db) (s : IsSettled id db) where
  refund-IsRefused : (res : Option Resolution) → IsRefused (execute_refund env id e res) db
  unfolding execute_refund refund_tx
  refund-IsRefused res = (
    not_open res,
    claim_refused id _ (refund_row env.now res) (not_open res) _ db
        (unclaimed id _ (refund_row env.now res) db s (opens_settled_from res)),
  )

  milestone-IsRefused :
      (bw sw part : ℕ) (label : Text)
      → IsRefused (transaction (partial_tx env id e bw sw part label)) db
  unfolding partial_tx
  milestone-IsRefused bw sw part label = (
    over_claimed,
    claim_refused id (can_claim part) (claimed_part part) over_claimed _ db
        (unclaimed id (can_claim part) (claimed_part part) db s (opens_can_claim part)),
  )

  release_tx-IsRefused :
      (res : Option Resolution) (bw sw : ℕ)
      → IsRefused (transaction (release_tx env id e res bw sw)) db
  unfolding release_tx
  release_tx-IsRefused res bw sw = (
    not_open res,
    claim_refused id _ (release_row env.now res) (not_open res) _ db
        (unclaimed id _ (release_row env.now res) db s (opens_settled_from res)),
  )

  release-IsRefused : (res : Option Resolution) → IsRefused (execute_release env id e res) db
  unfolding execute_release or_raise raise_if next ◌>>=◌ ◌>>◌
  release-IsRefused res = go e.buyer_wallet_id e.seller_wallet_id (e.amount == 0)
    where
      missing : Error
      missing = bad_request "Escrow is missing a buyer or seller wallet"

      go :
          (bo so : Option ℕ) (zero : Bool)
          → IsRefused
              (or_raise missing bo >>= λ bw. or_raise missing so >>= λ sw.
                raise_if zero (bad_request "Escrow amount is invalid")
                >> transaction (release_tx env id e res bw sw))
              db
      go none so zero = (missing, refl)
      go (some bw) none zero = (missing, refl)
      go (some bw) (some sw) true = (bad_request "Escrow amount is invalid", refl)
      go (some bw) (some sw) false = release_tx-IsRefused res bw sw

still-IsSettled :
    {id : ℕ} (media : Media) (start db : Db)
    → IsSettled id start
    → Reach media start db
    → IsSettled id db
still-IsSettled media start _ s begin = s
still-IsSettled media start _ s (serve {db} env r reach fair fresh current) =
    request-Stays env media r db fresh (still-IsSettled media start db s reach)

-- What an action that returns has left.
of_ok :
    {A : Type 0} {Q : Db → Type 0} (r : Result A × Db) {a : A} {d : Db}
    → Post Any (λ _. Q) r
    → r ≡ (ok a, d)
    → Q d
of_ok {Q = Q} r {d = d} (returns {d = d'} q) same = subst Q (ap (λ r. r.1) same) q
of_ok r (raises h) same = absurd (cc)

-- Which row a release or a refund writes.
module _ (env : Env) (id : ℕ) (e : Escrow) where
  release_row_final :
      (res : Option Resolution) (r : Escrow) → is_final (release_row env.now res r).status ≡ true
  release_row_final none r = refl
  release_row_final (some _) r = refl

  refund_row_final :
      (res : Option Resolution) (r : Escrow) → is_final (refund_row env.now res r).status ≡ true
  refund_row_final none r = refl
  refund_row_final (some _) r = refl

  release_settles :
      (res : Option Resolution) (db : Db)
      → Post Any (λ _. IsSettled id) (execute_release env id e res db)
  unfolding execute_release release_tx
  release_settles res db = Post-or_raise _ e.buyer_wallet_id _ db tt λ bw _.
      Post-or_raise _ e.seller_wallet_id _ db tt λ sw _. Post-check (e.amount == 0) _ _ db tt λ _.
        Post-transaction (release_tx env id e res bw sw) db tt (
          Post-bind (update_many_escrow id _ (release_row env.now res)) _ db
            (update_many_settles _ (release_row env.now res) db (release_row_final res))
            λ claimed d settled. Post-check (not claimed) (not_open res) _ d tt λ was_claimed.
              Post-gets (λ d. find id d.escrows) _ d
                (forget _ (
                  release_locked-Stays env id e bw sw
                    (remaining_amount (fresh_or e (find id d.escrows))) d
                    (settled (ground (arith, was_claimed))))))

  refund_settles :
      (res : Option Resolution) (db : Db)
      → Post Any (λ _. IsSettled id) (execute_refund env id e res db)
  unfolding execute_refund refund_tx
  refund_settles res db = Post-transaction (refund_tx env id e res) db tt (
      Post-bind (update_many_escrow id _ (refund_row env.now res)) _ db
        (update_many_settles _ (refund_row env.now res) db (refund_row_final res))
        λ claimed d settled. Post-check (not claimed) (not_open res) _ d tt λ was_claimed.
          Post-gets (λ d. find id d.escrows) _ d
            (Post-or_raise _ e.buyer_wallet_id _ d tt λ bw _.
              Post-then (adjust_wallet bw _ _) _ d
                (forget _ (adjust_wallet-Stays bw _ _ d (settled (ground (arith, was_claimed)))))
                λ _ d₁ s₁.
                  Post-then (create_transaction env.new_transaction _) _ d₁
                    (forget _ (create_transaction-Stays env.new_transaction _ d₁ s₁))
                    λ _ d₂ s₂. Post-pure _ d₂ s₂))

  IsSettled-by :
      (res : Option Resolution) (paid : ℕ) (before after : Db)
      → (execute_release env id e res before ≡ (ok paid, after))
        ⊎ (execute_refund env id e res before ≡ (ok paid, after))
      → IsSettled id after
  IsSettled-by res paid before after (inl released) = of_ok _ (release_settles res before) released
  IsSettled-by res paid before after (inr refunded) = of_ok _ (refund_settles res before) refunded

-- Take an escrow for which an `executeRelease` or an `executeRefund` has returned, and any state
-- that the service then reaches. There every further `executeRelease` and `executeRefund` of it,
-- with or without a resolution by an admin, on whatever row its caller has read, and the
-- transaction of every milestone of it, raises an exception and leaves every table as it was.
pub settled_at_most_once :
    (media : Media) (env env' : Env) (id : ℕ) (e e' : Escrow) (res res' : Option Resolution)
    (paid : ℕ) (before after db : Db) (bw sw part : ℕ) (label : Text)
    → (execute_release env id e res before ≡ (ok paid, after))
      ⊎ (execute_refund env id e res before ≡ (ok paid, after))
    → Reach media after db
    → IsRefused (execute_release env' id e' res') db
      × IsRefused (execute_refund env' id e' res') db
      × IsRefused (transaction (partial_tx env' id e' bw sw part label)) db
settled_at_most_once media env env' id e e' res res' paid before after db bw sw part label settled
      reach =
    let s =
      still-IsSettled media after db (IsSettled-by env id e res paid before after settled) reach in
    (
      release-IsRefused env' id e' db s res',
      refund-IsRefused env' id e' db s res',
      milestone-IsRefused env' id e' db s bw sw part label,
    )
