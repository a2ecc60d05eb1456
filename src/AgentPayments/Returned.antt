-- ===== src/AgentPayments/Returned.antt =====
-- A refund moves money from the business to the payer and makes none.
use farm_backend.Prelude.{
  ℕ, ◌-◌, ◌≡◌, refl, ◌∙◌, Bool, true, false, not, Option, none, some, Bool-cases, inl, inr,
}
use farm_backend.Prelude.Int.{ℤ, pos, negate, ◌+ℤ◌, int_laws, parts_of_eq, leb_ℤ}
use farm_backend.Prelude.Text.{Text}
use farm_backend.Prelude.Table.{find, sum_by-modify}
use farm_backend.Store.{
  Db, Wallet, Intent, PaymentRefund, moved, pure, adjust_wallet, write_wallet, debit_wallet,
  debit_row, create_transaction, create_entry, claim_in, create_in,
}
use farm_backend.Store.Rules.{
  Post, returns, raises, Any, Post-bind, Post-then, Post-gets, Post-or_raise, Post-pure,
  Post-branch, Post-check, Post-transaction, forget,
}
use farm_backend.Store.Balance.{total}
use farm_backend.Store.Apart.{Apart-claim_in, Apart-create_in}
use farm_backend.Escrow.Env.{Env, given}
use farm_backend.Escrow.{active_wallet}
use farm_backend.AgentPayments.Tables.{Limits, ensure, Caller, r2, intent_rows, refund_rows}
use farm_backend.AgentPayments.Intents.{expire_intent, is_stale, expire, own_intent}
use farm_backend.AgentPayments.Refund.{
  RefundDto, keyed_refund, payer_wallet, move_refund, Refunding, is_as_read, return_part,
  move_if_live, refund_payment_tx, asked_amount, refunding, refund_checked, answer_refund, refund,
}

-- The wallets hold `sum` together.
unfoldable pub Holds : ℤ → Db → Type 0
unfolding total
Holds sum db = total db ≡ sum

pub Holds-adjust_wallet :
    (sum : ℤ) (k : ℕ) (by lock : ℤ) (db : Db)
    → Holds sum db
    → Post Any (λ _. Holds (sum +ℤ by)) (adjust_wallet k by lock db)
unfolding adjust_wallet write_wallet Holds total
Holds-adjust_wallet sum k by lock db h = go (find k db.wallets) refl
  where
    go :
        (o : Option Wallet)
        → find k db.wallets ≡ o
        → Post Any (λ _. Holds (sum +ℤ by)) (write_wallet k (moved by lock) o db)
    go none at = raises tt
    go (some w) at = returns (
        omega (
          int_laws,
          parts_of_eq h,
          parts_of_eq (sum_by-modify (λ (w : Wallet). w.balance) k (moved by lock) db.wallets at),
        ))

abbrev after_debit : ℤ → ℕ → Bool → ℤ
after_debit sum amount true = sum +ℤ negate (pos amount)
after_debit sum amount false = sum

Holds-debit_wallet :
    (sum : ℤ) (k amount : ℕ) (db : Db)
    → Holds sum db
    → Post Any (λ b. Holds (after_debit sum amount b)) (debit_wallet k amount db)
unfolding debit_wallet debit_row Holds total
Holds-debit_wallet sum k amount db h = go (find k db.wallets) refl
  where
    go :
        (o : Option Wallet)
        → find k db.wallets ≡ o
        → Post Any (λ b. Holds (after_debit sum amount b)) (debit_row k amount o db)
    go none at = returns h
    go (some w) at = elim (Bool-cases (leb_ℤ (pos amount) w.balance)) [
      | inl enough ↦ rw enough (
          returns (
            omega (
              int_laws,
              parts_of_eq h,
              parts_of_eq (
                  sum_by-modify (λ (w : Wallet). w.balance) k (moved (negate (pos amount)) (pos 0))
                    db.wallets at),
            )))
      | inr short ↦ rw short (returns h)
    ]

pub back_and_forth : (sum : ℤ) (n : ℕ) → sum +ℤ negate (pos n) +ℤ pos n ≡ sum
back_and_forth sum n = omega int_laws

move_refund-Holds :
    (sum : ℤ) (env : Env) (intent_id owner_id : ℕ) (payer_id : Option ℕ) (amount : ℕ) (db : Db)
    → Holds sum db
    → Post Any (λ _. Holds sum) (move_refund env intent_id owner_id payer_id amount db)
unfolding move_refund Holds create_transaction create_entry
move_refund-Holds sum env intent_id owner_id payer_id amount db h = Post-gets _ _ db (
    Post-gets _ _ db (
      Post-or_raise _ (active_wallet owner_id db) _ db tt λ from _.
        Post-or_raise _ (payer_wallet payer_id db) _ db tt λ to _. Post-check _ _ _ db tt λ _.
          Post-bind (debit_wallet from.0 amount) _ db (Holds-debit_wallet sum from.0 amount db h)
            λ paid d h'. Post-check _ _ _ d tt λ was_paid.
              Post-then (adjust_wallet to.0 (pos amount) (pos 0)) _ d
                (Holds-adjust_wallet (sum +ℤ negate (pos amount)) to.0 (pos amount) (pos 0) d
                  (debited paid d was_paid h'))
                λ _ d₁ h₁.
                  Post-bind (create_transaction env.new_transaction _) _ d₁ (returns h₁)
                    λ txn d₂ h₂. Post-then (create_entry _) _ d₂ (returns h₂) λ _ d₃ h₃.
                      Post-then (create_entry _) _ d₃ (returns h₃)
                        λ _ d₄ h₄. Post-pure _ d₄ (h₄ ∙ back_and_forth sum amount)))
  where
    debited :
        (b : Bool) (d : Db)
        → not b ≡ false
        → Holds (after_debit sum amount b) d
        → Holds (sum +ℤ negate (pos amount)) d
    debited true d ok h = h
    debited false d ok h = absurd (cc)

-- The wallets are those of `db`.
abbrev pub SameWallets : Db → Db → Type 0
SameWallets db d = d.wallets ≡ db.wallets

module _ (env : Env) (ctx : Caller) (new_id : ℕ) where
  refund_payment_tx-Holds :
      (sum : ℤ) (p : Refunding) (db : Db)
      → Holds sum db
      → Post Any (λ _. Holds sum) (refund_payment_tx env ctx new_id p db)
  unfolding refund_payment_tx move_if_live Holds
  refund_payment_tx-Holds sum p db h =
      Post-bind (claim_in intent_rows p.intent_id (is_as_read p.read) _) _ db
        (forget _ (
          Apart-claim_in intent_rows (Holds sum) (λ t d k. k) p.intent_id (is_as_read p.read)
            (return_part p.read p.total_refunded) db h))
        λ claimed d h₁. Post-check _ _ _ d tt λ _.
          Post-bind (move_if_live env ctx new_id p) _ d
            (Post-branch ctx.live _ (pure none) d
              (λ _.
                move_refund-Holds sum env p.intent_id ctx.owner_user_id p.read.payer_user_id
                  p.amount d h₁)
              λ _. Post-pure none d h₁)
            λ txn d₂ h₂.
              Post-then (create_in refund_rows new_id _) _ d₂
                (forget _ (Apart-create_in refund_rows (Holds sum) (λ t d k. k) new_id _ d₂ h₂))
                λ _ d₃ h₃. Post-pure _ d₃ h₃

  refund_checked-Holds :
      (id : ℕ) (dto : RefundDto) (key : Option Text) (db : Db)
      → Post
          (SameWallets db)
          (λ _ d. total d ≡ total db)
          (refund_checked env ctx new_id id dto key db)
  unfolding refund_checked own_intent Holds total
  refund_checked-Holds id dto key db =
      Post-bind (own_intent env.now ctx.business_id id (some ctx.live)) _ db
        (Post-then (expire_intent env.now id) _ db expires λ _ d h.
          Post-gets _ _ d
            (Post-or_raise _ _ _ d h λ i _. Post-check _ _ _ d h λ _. Post-pure i d h))
        λ i d h. Post-check _ _ _ d h λ _. Post-check _ _ _ d h λ _. Post-check _ _ _ d h λ _.
          Post-transaction (refund_payment_tx env ctx new_id (refunding id dto key i (asked i))) d h
            (refund_payment_tx-Holds (total db) (refunding id dto key i (asked i)) d (rw h refl))
    where
      asked : Intent → ℕ
      asked i = asked_amount (r2 (i.amount - i.amount_refunded)) dto.amount

      expires : Post (SameWallets db) (λ _. SameWallets db) (expire_intent env.now id db)
      expires =
          Apart-claim_in intent_rows (SameWallets db) (λ t d k. k) id (is_stale env.now) expire db
            refl

  -- A refund that returns leaves the sum of all balances as it was; one that raises leaves the
  -- wallets as they were.
  pub refund-Holds :
      (l : Limits) (id : ℕ) (dto : RefundDto) (idem : Option Text) (db : Db)
      → Post (SameWallets db) (λ _ d. total d ≡ total db) (refund env ctx new_id l id dto idem db)
  unfolding refund ensure answer_refund
  refund-Holds l id dto idem db =
      Post-check _ _ _ db refl
        λ _. Post-gets _ _ db (go (keyed_refund ctx.business_id (given idem) db))
    where
      go :
          (o : Option (ℕ × PaymentRefund))
          → Post
              (SameWallets db)
              (λ _ d. total d ≡ total db)
              (answer_refund env ctx new_id o
                (refund_checked env ctx new_id id dto (given idem))
                db)
      go none = refund_checked-Holds id dto (given idem) db
      go (some r) = Post-pure r db refl
