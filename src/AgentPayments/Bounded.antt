-- ===== src/AgentPayments/Bounded.antt =====
-- A refund does not go beyond what was paid.
use farm_backend.Prelude.{
  ℕ, ◌+◌, ◌-◌, ◌/◌, ◌≤◌, ◌≡◌, refl, sym, ap, ◌∙◌, Bool, true, false, Option, none, some, arith, ltb,
  subst, some_inj,
}
use farm_backend.Prelude.Int.{ℤ, pos, pos_part}
use farm_backend.Prelude.Text.{Text}
use farm_backend.Prelude.Table.{Table, find}
use farm_backend.Store.{
  Db, Intent, PaymentRefund, claim_in, create_in, pure, adjust_wallet, debit_wallet,
  create_transaction, create_entry,
}
use farm_backend.Store.Rules.{
  Post, Post-bind, Post-then, Post-gets, Post-or_raise, Post-pure, Post-branch, Post-check,
  Post-transaction, forget,
}
use farm_backend.Store.Side.{
  On, On-claim_in, On-adjust_wallet, On-create_transaction, On-create_entry, On-debit_wallet,
}
use farm_backend.Store.Apart.{Apart-create_in}
use farm_backend.Store.Every.{Every, Every-find, Every-modify}
use farm_backend.Escrow.Env.{Env, given}
use farm_backend.Escrow.{active_wallet}
use farm_backend.Team.{payouts_create, resolve, actor_of}
use farm_backend.Auth.{verify_pin}
use farm_backend.Wallets.Elsewhere.{verify_pin-Stays}
use farm_backend.AgentPayments.Tables.{Limits, ensure, Caller, r2, intent_rows, refund_rows}
use farm_backend.AgentPayments.Intents.{is_stale, expire, expire_intent, own_intent}
use farm_backend.AgentPayments.Refund.{
  RefundDto, keyed_refund, payer_wallet, move_refund, is_as_read, return_part, move_if_live,
  refund_payment_tx, asked_amount, refunding, refund_checked, answer_refund, refund,
  refund_from_dashboard,
}
use farm_backend.AgentPayments.Fair.{IsFair, Fair, KeepsFair, refunded_whole, claim-KeepsFair}

IsFair-return_part :
    (read y : Intent) (asked : ℕ)
    → read ≡ y
    → IsFair read
    → r2 asked ≤ r2 (read.amount - read.amount_refunded)
    → IsFair (return_part read (r2 (read.amount_refunded + r2 asked)) y)
IsFair-return_part read y asked same h le =
    let parts =
      refunded_whole read.amount read.amount_refunded h.back h.whole asked h.asked h.returned
        h.bounded le in
    let e : y.amount ≡ read.amount = sym (ap (λ (i : Intent). i.amount) same) in
    record {
      whole = h.whole;
      asked = e ∙ h.asked;
      back = h.back + (asked + 500_000) / 1_000_000;
      returned = parts.0;
      bounded = rw e parts.1;
    }

-- What is asked is rounded.
pub asked_rounded :
    (i : Intent) (o : Option ℤ)
    → (n : ℕ) × (asked_amount (r2 (i.amount - i.amount_refunded)) o ≡ r2 n)
asked_rounded i none = (r2 (i.amount - i.amount_refunded), refl)
asked_rounded i (some a) = (pos_part a, refl)

le_of_not_ltb : (a b : ℕ) → ltb a b ≡ false → b ≤ a
le_of_not_ltb a b h = ground arith

-- The movement of the money leaves the intents alone.
pub move_refund-On :
    (P : Table Intent → Type 0) (env : Env) (intent_id owner_id : ℕ) (payer_id : Option ℕ)
    (amount : ℕ) (d : Db)
    → On intent_rows P d
    → Post
        (On intent_rows P)
        (λ _. On intent_rows P)
        (move_refund env intent_id owner_id payer_id amount d)
unfolding move_refund
move_refund-On P env intent_id owner_id payer_id amount d h = Post-gets _ _ d (
    Post-gets _ _ d (
      Post-or_raise _ (active_wallet owner_id d) _ d h λ from _.
        Post-or_raise _ (payer_wallet payer_id d) _ d h λ to _. Post-check _ _ _ d h λ _.
          Post-bind (debit_wallet from.0 amount) _ d
            (On-debit_wallet intent_rows P from.0 amount d h)
            λ paid d₁ h₁. Post-check _ _ _ d₁ h₁ λ _.
              Post-then (adjust_wallet to.0 (pos amount) (pos 0)) _ d₁
                (On-adjust_wallet intent_rows P to.0 (pos amount) (pos 0) d₁ h₁)
                λ _ d₂ h₂.
                  Post-bind (create_transaction env.new_transaction _) _ d₂
                    (On-create_transaction intent_rows P env.new_transaction _ d₂ h₂)
                    λ txn d₃ h₃.
                      Post-then (create_entry _) _ d₃ (On-create_entry intent_rows P _ d₃ h₃)
                        λ _ d₄ h₄.
                          Post-then (create_entry _) _ d₄ (On-create_entry intent_rows P _ d₄ h₄)
                            λ _ d₅ h₅. Post-pure _ d₅ h₅))

module _ (env : Env) (ctx : Caller) (new_id : ℕ) where
  refund_payment_tx-KeepsFair :
      (id asked : ℕ) (dto : RefundDto) (key : Option Text) (i : Intent) (amount : ℕ) (d : Db)
      → Fair d
      → find id d.payment_intents ≡ some i
      → amount ≡ r2 asked
      → amount ≤ r2 (i.amount - i.amount_refunded)
      → Post Fair (λ _. Fair) (refund_payment_tx env ctx new_id (refunding id dto key i amount) d)
  unfolding refund_payment_tx move_if_live
  refund_payment_tx-KeepsFair id asked dto key i amount d h at rounded le =
      Post-bind (claim_in intent_rows id (is_as_read i) _) _ d
        (On-claim_in intent_rows (Every IsFair) id (is_as_read i)
          (return_part i (r2 (i.amount_refunded + amount))) d
          (λ x _ _. Every-modify IsFair id _ d.payment_intents h λ y at'.
            subst (λ n. IsFair (return_part i (r2 (i.amount_refunded + n)) y)) (sym rounded)
              (IsFair-return_part i y asked (some_inj (sym at ∙ at'))
                (Every-find IsFair id d.payment_intents h at)
                (subst (λ n. n ≤ r2 (i.amount - i.amount_refunded)) rounded le)))
          h)
        λ claimed d₁ h₁. Post-check _ _ _ d₁ h₁ λ _.
          Post-bind (move_if_live env ctx new_id (refunding id dto key i amount)) _ d₁
            (Post-branch ctx.live _ (pure none) d₁
              (λ _.
                move_refund-On (Every IsFair) env id ctx.owner_user_id i.payer_user_id amount d₁ h₁)
              λ _. Post-pure none d₁ h₁)
            λ txn d₂ h₂.
              Post-then (create_in refund_rows new_id _) _ d₂
                (Apart-create_in refund_rows Fair (λ t d k. k) new_id _ d₂ h₂)
                λ _ d₃ h₃. Post-pure _ d₃ h₃

  own_intent-found :
      (business_id id : ℕ) (live : Option Bool) (d : Db)
      → Fair d
      → Post Fair
          (λ i d'. Fair d' × (find id d'.payment_intents ≡ some i))
          (own_intent env.now business_id id live d)
  unfolding own_intent expire_intent
  own_intent-found business_id id live d h =
      Post-then (expire_intent env.now id) _ d
        (claim-KeepsFair expire (λ x. (refl, refl)) id (is_stale env.now) d h)
        λ _ d' h'. Post-gets _ _ d' (
          Post-or_raise _ (find id d'.payment_intents) _ d' h'
            λ i at. Post-check _ _ _ d' h' λ _. Post-pure i d' (h', at))

  refund_checked-KeepsFair :
      (id : ℕ) (dto : RefundDto) (key : Option Text)
      → KeepsFair (refund_checked env ctx new_id id dto key)
  unfolding refund_checked
  refund_checked-KeepsFair id dto key d h =
      Post-bind (own_intent env.now ctx.business_id id (some ctx.live)) _ d
        (own_intent-found ctx.business_id id (some ctx.live) d h)
        λ i d₁ (h₁, at). Post-check _ _ _ d₁ h₁ λ _. Post-check _ _ _ d₁ h₁ λ _.
          Post-check _ _ _ d₁ h₁ λ enough.
            let amount = asked_amount (r2 (i.amount - i.amount_refunded)) dto.amount in
            Post-transaction (refund_payment_tx env ctx new_id (refunding id dto key i amount)) d₁
              h₁
              (forget _ (
                refund_payment_tx-KeepsFair id (asked_rounded i dto.amount).0 dto key i amount d₁ h₁
                  at (asked_rounded i dto.amount).1
                  (le_of_not_ltb (r2 (i.amount - i.amount_refunded)) amount enough)))

  pub refund-KeepsFair :
      (l : Limits) (id : ℕ) (dto : RefundDto) (idem : Option Text)
      → KeepsFair (refund env ctx new_id l id dto idem)
  unfolding refund ensure answer_refund
  refund-KeepsFair l id dto idem d h =
      Post-check _ _ _ d h λ _. Post-gets _ _ d (go (keyed_refund ctx.business_id (given idem) d))
    where
      go :
          (o : Option (ℕ × PaymentRefund))
          → Post Fair
              (λ _. Fair)
              (answer_refund env ctx new_id o (refund_checked env ctx new_id id dto (given idem)) d)
      go none = refund_checked-KeepsFair id dto (given idem) d h
      go (some r) = Post-pure r d h

pub refund_from_dashboard-KeepsFair :
    (env : Env) (l : Limits) (user_id new_id id : ℕ) (dto : RefundDto) (pin : Text)
    (idem : Option Text)
    → KeepsFair (refund_from_dashboard env l user_id new_id id dto pin idem)
unfolding refund_from_dashboard resolve
refund_from_dashboard-KeepsFair env l user_id new_id id dto pin idem d h =
    Post-bind (resolve user_id payouts_create) _ d
      (Post-gets _ _ d (
        Post-or_raise _ (actor_of user_id d) _ d h
          λ a _. Post-check _ _ _ d h λ _. Post-pure a d h))
      λ actor d₁ h₁.
        Post-then (verify_pin env.bcrypt user_id pin) _ d₁
          (verify_pin-Stays intent_rows (Every IsFair) env.bcrypt user_id pin d₁ h₁)
          λ _ d₂ h₂.
            refund-KeepsFair env
              (record {
                business_id = actor.business_id;
                owner_user_id = actor.owner_user_id;
                actor_user_id = some user_id;
                live = true;
              })
              new_id l id dto idem d₂ h₂
