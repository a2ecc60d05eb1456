-- ===== src/AgentPayments/Stale.antt =====
-- Two refunds of one payment that have read the same row: the condition of the claim.
use farm_backend.Prelude.{
  ℕ, ◌+◌, ◌-◌, ◌*◌, ◌≡◌, ◌≢◌, refl, ap, sym, ◌∙◌, Bool, false, not, Option, none, some, arith, ◌==◌,
  inl, inr, Bool-cases, subst,
}
use farm_backend.Prelude.Text.{Text}
use farm_backend.Prelude.Table.{Table, find, modify, find-modify}
use farm_backend.Store.{
  Db, Intent, PaymentRefund, Field, ok, claim_in, claim_row, create_in, pure, transaction,
}
use farm_backend.Store.Rules.{
  Post, returns, Any, Refuses, Refuses-of_Post, returned, Post-bind, Post-then, Post-pure,
  Post-branch, Post-check, Post-transaction, forget,
}
use farm_backend.Store.Side.{On}
use farm_backend.Store.Apart.{Apart-create_in}
use farm_backend.Escrow.Env.{Env}
use farm_backend.AgentPayments.Tables.{Caller, r2, intent_rows, refund_rows}
use farm_backend.AgentPayments.Refund.{
  RefundDto, is_as_read, return_part, move_if_live, refund_payment_tx, asked_amount, refunding,
}
use farm_backend.AgentPayments.Bounded.{asked_rounded, move_refund-On}

-- What a claim leaves where it changes a row, and finds where it does not.
claim_in-found :
    {V : Type 0} (fd : Field V) (k : ℕ) (p : V → Bool) (f : V → V) (db : Db)
    → Post Any
        (λ b d. not b ≡ false → (x : V) × (find k (fd.get d) ≡ some (f x)))
        (claim_in fd k p f db)
unfolding claim_in claim_row
claim_in-found {V} fd k p f db = go (find k (fd.get db)) refl
  where
    go :
        (o : Option V)
        → find k (fd.get db) ≡ o
        → Post Any
            (λ b d. not b ≡ false → (x : V) × (find k (fd.get d) ≡ some (f x)))
            (claim_row fd k p f o db)
    go none found = returns (λ claimed. absurd (cc))
    go (some v) found = elim (Bool-cases (p v)) [
      | inl passes ↦ rw passes (
          returns (λ _. (
            v,
            rw (fd.got (modify k f (fd.get db)) db, find-modify k k f (fd.get db), found)
                (ground arith),
          )))
      | inr fails ↦ rw fails (returns (λ claimed. absurd (cc)))
    ]

-- A claim of a row that fails its condition claims nothing.
claim_in-misses :
    {V : Type 0} (fd : Field V) (k : ℕ) (p : V → Bool) (f : V → V) (db : Db) {v : V}
    → find k (fd.get db) ≡ some v
    → p v ≡ false
    → Post Any (λ b _. b ≡ false) (claim_in fd k p f db)
unfolding claim_in claim_row
claim_in-misses fd k p f db found fails = rw (found, fails) (returns refl)

-- The row of the payment carries that sum of refunds.
abbrev pub Carries : ℕ → ℕ → Table Intent → Type 0
Carries id n t = (y : Intent) × (find id t ≡ some y) × (y.amount_refunded ≡ n)

module _ (env : Env) (ctx : Caller) (new_id id : ℕ) (dto : RefundDto) (key : Option Text) where
  refund_payment_tx-Carries :
      (i : Intent) (amount : ℕ) (d : Db)
      → Post Any
          (λ _. On intent_rows (Carries id (r2 (i.amount_refunded + amount))))
          (refund_payment_tx env ctx new_id (refunding id dto key i amount) d)
  unfolding refund_payment_tx move_if_live
  refund_payment_tx-Carries i amount d =
      let P = Carries id (r2 (i.amount_refunded + amount)) in
      Post-bind (claim_in intent_rows id (is_as_read i) _) _ d
        (claim_in-found intent_rows id (is_as_read i)
          (return_part i (r2 (i.amount_refunded + amount))) d)
        λ claimed d₁ found. Post-check _ _ _ d₁ tt λ done.
          let h₁ : On intent_rows P d₁ = (_, (found done).1, refl) in
          Post-bind (move_if_live env ctx new_id (refunding id dto key i amount)) _ d₁
            (Post-branch ctx.live _ (pure none) d₁
              (λ _.
                forget _ (move_refund-On P env id ctx.owner_user_id i.payer_user_id amount d₁ h₁))
              λ _. Post-pure none d₁ h₁)
            λ txn d₂ h₂.
              Post-then (create_in refund_rows new_id _) _ d₂
                (forget _
                  (Apart-create_in refund_rows (On intent_rows P) (λ t d k. k) new_id _ d₂ h₂))
                λ _ d₃ h₃. Post-pure _ d₃ h₃

  -- A refund on a row with another sum of refunds than the table's is refused.
  refund_payment_tx-stale :
      (i y : Intent) (amount : ℕ) (d : Db)
      → find id d.payment_intents ≡ some y
      → y.amount_refunded ≢ i.amount_refunded
      → Post
          (λ d'. d' ≡ d)
          (λ _ _. ⊥)
          (transaction (refund_payment_tx env ctx new_id (refunding id dto key i amount)) d)
  unfolding refund_payment_tx is_as_read
  refund_payment_tx-stale i y amount d found other =
      Post-transaction (refund_payment_tx env ctx new_id (refunding id dto key i amount)) d refl (
        Post-bind (claim_in intent_rows id (is_as_read i) _) _ d
          (claim_in-misses intent_rows id (is_as_read i)
            (return_part i (r2 (i.amount_refunded + amount))) d found fails)
          λ claimed d₁ missed.
            Post-check _ _ _ d₁ tt λ done. absurd (let e = rw missed at done in cc))
    where
      unequal : (a b : ℕ) → a ≢ b → (a == b) ≡ false
      unequal a b h = ground arith

      fails : is_as_read i y ≡ false
      fails = rw (unequal y.amount_refunded i.amount_refunded other) refl

-- A refund of something changes the sum.
sum_moves : (b back n : ℕ) → b ≡ back * 1_000_000 → r2 n ≢ 0 → r2 (b + r2 n) ≢ b
unfolding r2
sum_moves b back n e some_part same = some_part (omega (arith, e, same))

-- Take two refunds of one payment, by any callers, that have read its row with the same amount
-- refunded, a whole number of hundredths of a FARM; the first is of the amount that the code
-- computes from that row and from what is asked, which is not zero. Once the transaction of the
-- first has returned, and whatever code that leaves the intents alone has run since, the
-- transaction of the second, of whatever amount, raises and leaves every table as it was.
pub stale_refund-Refuses :
    (env env' : Env) (ctx ctx' : Caller) (new_id new_id' id amount' back : ℕ) (dto dto' : RefundDto)
    (key key' : Option Text) (i i' : Intent) (x : ℕ × PaymentRefund) (before after db : Db)
    → i.amount_refunded ≡ back * 1_000_000
    → asked_amount (r2 (i.amount - i.amount_refunded)) dto.amount ≢ 0
    → i'.amount_refunded ≡ i.amount_refunded
    → transaction
        (refund_payment_tx env ctx new_id
          (refunding id dto key i (asked_amount (r2 (i.amount - i.amount_refunded)) dto.amount)))
        before
      ≡ (ok x, after)
    → db.payment_intents ≡ after.payment_intents
    → Refuses db
        (transaction (refund_payment_tx env' ctx' new_id' (refunding id dto' key' i' amount')) db)
stale_refund-Refuses env env' ctx ctx' new_id new_id' id amount' back dto dto' key key' i i' x
      before after db whole something alike first kept =
    let amount = asked_amount (r2 (i.amount - i.amount_refunded)) dto.amount in
    let tx = refund_payment_tx env ctx new_id (refunding id dto key i amount) in
    let now : Carries id (r2 (i.amount_refunded + amount)) after.payment_intents =
      returned (transaction tx before)
        (Post-transaction tx before tt
          (refund_payment_tx-Carries env ctx new_id id dto key i amount before))
        first in
    let (n, rounded) = asked_rounded i dto.amount in
    let moved : r2 (i.amount_refunded + amount) ≢ i.amount_refunded =
      subst (λ a. r2 (i.amount_refunded + a) ≢ i.amount_refunded) (sym rounded)
        (sum_moves i.amount_refunded back n whole (λ zero_part. something (rounded ∙ zero_part))) in
    Refuses-of_Post _ (
      refund_payment_tx-stale env' ctx' new_id' id dto' key' i' now.0 amount' db
        (ap (find id) kept ∙ now.1) (λ same. moved (sym now.2 ∙ (same ∙ alike))))
