-- ===== src/Escrow/Milestone.antt =====
-- The transaction of `releasePartial`: what its writes do to the books.
use farm_backend.Prelude.{
  ℕ, ◌+◌, ◌≤◌, ◌≡◌, refl, ◌∙◌, Bool, true, false, not, some, ◌==◌, if◌then◌else◌, arith, inl, inr,
  Bool-cases, ==_iff,
}
use farm_backend.Prelude.Int.{ℤ, pos, ◌+ℤ◌, ◌≤ℤ◌, int_laws, parts_of_eq}
use farm_backend.Prelude.Number.{finite}
use farm_backend.Prelude.Text.{Text}
use farm_backend.Prelude.Table.{Table, find, modify, find-modify}
use farm_backend.Fees.{FeeKey, compute_fee}
use farm_backend.Store.{
  Db, Escrow, active, update_escrow, update_many_escrow, raise_if, pure, gets, ◌>>=◌, ◌>>◌,
}
use farm_backend.Store.Rules.{Post, Any, Post-bind, Post-then, Post-gets, Post-pure, Post-check}
use farm_backend.Store.Balance.{total, Books}
use farm_backend.Store.Ledger.{Books-mono, Books-claim, Claimed, Books-update_escrow}
use farm_backend.Escrow.Env.{Env}
use farm_backend.Escrow.Money.{remaining_amount}
use farm_backend.Escrow.Release.{status_eq, fresh_or, pay_seller}
use farm_backend.Escrow.Partial.{
  can_claim, claimed_part, finished, complete_if_paid, partial_tx, PartResult, over_claimed,
  settle_part,
}
use farm_backend.Escrow.Debt.{
  held, owed, Solvent, Books-of_Solvent, Solvent-of_Books, owed-modify, Books-pay_seller,
}
use farm_backend.Escrow.Settle.{IsFeeFair, IsRowOf, owed_less}

-- A row from which a part can be claimed is active and has that part left.
can_claim_facts :
    (part : ℕ) (r : Escrow)
    → can_claim part r ≡ true
    → (r.status ≡ active) × (r.released_amount + part ≤ r.amount)
unfolding status_eq
can_claim_facts part r h = ground arith

-- Claiming a part leaves the escrow open and frees just that part.
held-claimed :
    (bw part : ℕ) (r : Escrow) (k : ℕ)
    → can_claim part r ≡ true
    → r.buyer_wallet_id ≡ some bw
    → held k (claimed_part part r) +ℤ (if bw == k then pos part else pos 0) ≡ held k r
unfolding remaining_amount
held-claimed bw part r k claim wallet =
    let (is_active, fits) = can_claim_facts part r claim in
    elim (Bool-cases (bw == k)) [
      | inl same ↦ simp (is_active, wallet, same) (omega (int_laws, fits))
      | inr other ↦ simp (is_active, wallet, other) (omega int_laws)
    ]

plus_zero : (a : ℤ) → a +ℤ pos 0 ≡ a
plus_zero a = omega int_laws

-- Completing an escrow of which nothing is left frees nothing.
held-finished :
    (now : ℕ) (r : Escrow) (k : ℕ)
    → remaining_amount r ≡ 0
    → held k (finished now r) +ℤ pos 0 ≡ held k r
held-finished now r k none_left = ground (arith, none_left, plus_zero (pos 0))

-- The table after `complete_if_paid`.
abbrev paid_rows : ℕ → ℕ → Bool → Table Escrow → Table Escrow
paid_rows now id true es = modify id (finished now) es
paid_rows now id false es = es

owed-paid_rows :
    (now id : ℕ) (paid : Bool) (r : Escrow) (es : Table Escrow) (k : ℕ)
    → find id es ≡ some r
    → (paid ≡ true → remaining_amount r ≡ 0)
    → owed (paid_rows now id paid es) k ≤ℤ owed es k
owed-paid_rows now id false r es k found none_left = omega arith
owed-paid_rows now id true r es k found none_left = omega (
  int_laws,
  parts_of_eq (owed-modify id (finished now) es k found),
  parts_of_eq (held-finished now r k (none_left refl)),
)

completes :
    {sum : ℤ} {debt : ℕ → ℤ} {es : Table Escrow} (now id : ℕ) (paid : Bool) (db : Db)
    → Books sum debt es db
    → Post Any (λ _. Books sum debt (paid_rows now id paid es)) (complete_if_paid now id paid db)
unfolding complete_if_paid
completes now id false db b = Post-pure tt db b
completes now id true db b =
    Post-then (update_escrow id (finished now)) _ db (Books-update_escrow id (finished now) db b)
      λ _ d c. Post-pure tt d c

-- What the transaction reads back is the row that it has claimed.
read_back :
    {sum : ℤ} {debt : ℕ → ℤ} (es : Table Escrow) (id : ℕ) (e : Escrow) (f : Escrow → Escrow)
    (r : Escrow) (db : Db)
    → find id es ≡ some r
    → Books sum debt (modify id f es) db
    → find id db.escrows ≡ some (f r)
read_back es id e f r db found b = rw (b.same, find-modify id id f es, found) (ground arith)

module _ (env : Env) (fair : IsFeeFair env) (id bw sw part : ℕ) (e : Escrow) (label : Text) where
  -- The writes after the claim.
  rest-Books :
      (db : Db) (r : Escrow) (d : Db)
      → find id db.escrows ≡ some r
      → can_claim part r ≡ true
      → r.buyer_wallet_id ≡ some bw
      → Books (total db) (owed db.escrows) (modify id (claimed_part part) db.escrows) d
      → (paid : Bool) → (paid ≡ true → remaining_amount (claimed_part part r) ≡ 0)
      → (answer : PartResult)
      → Post Any
          (λ _ d'. (total d' ≡ total db) × Solvent d')
          ((complete_if_paid env.now id paid
              >> (pay_seller env id e bw sw part
                    (compute_fee (env.rule FeeKey.escrow_release) (finite (pos part)) 2)
                    (some label)
                  >> pure answer))
            d)
  rest-Books db r d found claim wallet b paid none_left answer =
      let f = claimed_part part in
      let es = modify id f db.escrows in
      Post-then (complete_if_paid env.now id paid) _ d (completes env.now id paid d b) λ _ d₁ b₁.
        Post-then (pay_seller env id e bw sw part _ _) _ d₁
          (Books-pay_seller env id e bw sw part _ _ d₁ b₁ (fair part))
          λ _ d₂ b₂. Post-pure answer d₂ (
            b₂.has_total,
            Solvent-of_Books d₂ (
                Books-mono b₂ refl (λ k. omega (
                  arith,
                  owed-paid_rows env.now id paid (f r) es k
                      (rw (find-modify id id f db.escrows, found) (ground arith)) none_left,
                  owed_less id bw f r db.escrows part k found
                      (held-claimed bw part r k claim wallet),
                ))),
          )

  after_claim :
      (db : Db) (claimed : Bool) (d : Db)
      → e.buyer_wallet_id ≡ some bw
      → IsRowOf id e db
      → Claimed
          (total db)
          (owed db.escrows)
          db.escrows
          id
          (can_claim part)
          (claimed_part part)
          claimed
          d
      → Post Any
          (λ _ d'. (total d' ≡ total db) × Solvent d')
          ((raise_if (not claimed) over_claimed
              >> (gets (λ d. find id d.escrows) >>= λ found.
                  settle_part env id e bw sw part label (fresh_or e found)))
            d)
  unfolding settle_part
  after_claim db false d wallet same c =
      Post-check (not false) over_claimed _ d tt (λ impossible. absurd (cc))
  after_claim db true d wallet same (r, found, claim, b) =
      Post-check (not true) over_claimed _ d tt λ _.
        Post-gets (λ d. find id d.escrows) _ d
          (rw (read_back db.escrows id e (claimed_part part) r d found b) (
            rest-Books db r d found claim (same r found ∙ wallet) b
              (remaining_amount (claimed_part part r) == 0) (λ h. (==_iff _ 0).0 h) _))

  pub partial_tx-Books :
      (db : Db)
      → Solvent db
      → e.buyer_wallet_id ≡ some bw
      → IsRowOf id e db
      → Post Any
          (λ _ d'. (total d' ≡ total db) × Solvent d')
          (partial_tx env id e bw sw part label db)
  unfolding partial_tx
  partial_tx-Books db s wallet same =
      Post-bind (update_many_escrow id (can_claim part) (claimed_part part)) _ db
        (Books-claim id (can_claim part) (claimed_part part) db (Books-of_Solvent db s))
        λ claimed d c. after_claim db claimed d wallet same c
