-- ===== src/Escrow/Settle.antt =====
-- `executeRelease`: what its writes do to the books.
use farm_backend.Prelude.{
  ℕ, ◌≤◌, ◌≡◌, refl, ◌∙◌, Bool, true, false, not, Option, none, some, ◌==◌, if◌then◌else◌, arith,
  inl, inr, Bool-cases, ==_iff,
}
use farm_backend.Prelude.Int.{ℤ, pos, negate, ◌+ℤ◌, ◌≤ℤ◌, int_laws, parts_of_eq}
use farm_backend.Prelude.Number.{finite}
use farm_backend.Prelude.Table.{Table, find, modify, find-modify}
use farm_backend.Fees.{FeeKey, compute_fee}
use farm_backend.Store.{
  Db, Escrow, EscrowStatus, Result, ok, err, Error, update_many_escrow, raise_if, pure, gets, ◌>>=◌,
  ◌>>◌,
}
use farm_backend.Store.Rules.{
  Post, returns, raises, Any, Post-mono, Post-bind, Post-then, Post-gets, Post-or_raise, Post-pure,
  Post-branch, Post-check, Post-transaction,
}
use farm_backend.Store.Balance.{total, Books, shift}
use farm_backend.Store.Ledger.{SameMoney, SameMoney-refl, Books-mono, Books-claim, Claimed}
use farm_backend.Escrow.Env.{Env}
use farm_backend.Escrow.Money.{remaining_amount}
use farm_backend.Escrow.Release.{
  Resolution, status_eq, settled_from, not_open, release_row, fresh_or, pay_seller, release_locked,
  release_tx, execute_release,
}
use farm_backend.Escrow.Debt.{
  is_open, held, owed, Solvent, Books-of_Solvent, Solvent-of_Books, owed-modify, Books-pay_seller,
}

-- How a call that began at `db` may end: with the same total and every wallet covered, or with an
-- exception that left all rows about money as they were.
pub data Keeps {A : Type 0} (db : Db) : Result A × Db → Type 0 where
  done : {a : A} {d : Db} → total d ≡ total db → Solvent d → Keeps db (ok a, d)
  failed : {e : Error} {d : Db} → SameMoney db d → Keeps db (err e, d)

pub Keeps-of_Post :
    {A : Type 0} {db : Db} (r : Result A × Db)
    → Post (SameMoney db) (λ _ d. (total d ≡ total db) × Solvent d) r
    → Keeps db r
Keeps-of_Post r (returns h) = done h.0 h.1
Keeps-of_Post r (raises h) = failed h

-- The release fee never exceeds what it is taken of.
abbrev pub IsFeeFair : Env → Type 0
IsFeeFair env =
    (amount : ℕ) → compute_fee (env.rule FeeKey.escrow_release) (finite (pos amount)) 2 ≤ amount

-- The row that a caller has read and the row in the table name the same buyer's wallet.
abbrev pub IsRowOf : ℕ → Escrow → Db → Type 0
IsRowOf id e db = (r : Escrow) → find id db.escrows ≡ some r → r.buyer_wallet_id ≡ e.buyer_wallet_id

pub zero_add : (a : ℤ) → pos 0 +ℤ a ≡ a
zero_add a = omega int_laws

shift_nothing :
    (bw n : ℕ) (debt : ℕ → ℤ) (k : ℕ) → (n == 0) ≡ true → shift bw (negate (pos n)) debt k ≤ℤ debt k
shift_nothing bw n debt k h = elim (Bool-cases (bw == k)) [
  | inl same ↦ rw same (omega (int_laws, (==_iff n 0).0 h))
  | inr other ↦ rw other (omega arith)
]

-- Where one escrow holds less, the debt of its buyer's wallet falls by as much.
pub owed_less :
    (id bw : ℕ) (f : Escrow → Escrow) (r : Escrow) (es : Table Escrow) (less k : ℕ)
    → find id es ≡ some r
    → held k (f r) +ℤ (if bw == k then pos less else pos 0) ≡ held k r
    → owed (modify id f es) k ≤ℤ shift bw (negate (pos less)) (owed es) k
owed_less id bw f r es less k found drop = elim (Bool-cases (bw == k)) [
  | inl same ↦
      let freed = rw same at drop in
      rw same (omega (int_laws, parts_of_eq (owed-modify id f es k found), parts_of_eq freed))
  | inr other ↦
      let kept = rw other at drop in
      rw other (omega (int_laws, parts_of_eq (owed-modify id f es k found), parts_of_eq kept))
]

-- A settled escrow holds nothing; it held all that was left of it.
pub held-closed :
    (bw : ℕ) (r r' : Escrow) (k : ℕ)
    → is_open r.status ≡ true
    → r.buyer_wallet_id ≡ some bw
    → is_open r'.status ≡ false
    → held k r' +ℤ (if bw == k then pos (remaining_amount r) else pos 0) ≡ held k r
held-closed bw r r' k was_open wallet closed = rw (was_open, wallet, closed) (zero_add _)

-- A settlement starts from an open escrow.
pub open_of :
    (st : EscrowStatus) (res : Option Resolution)
    → status_eq st (settled_from res) ≡ true
    → is_open st ≡ true
unfolding status_eq
open_of st none h = ground arith
open_of st (some r) h = ground arith

-- What the caller's transaction reads back is left of the row that it has claimed.
pub left_of :
    {sum : ℤ} {debt : ℕ → ℤ} (es : Table Escrow) (id : ℕ) (e : Escrow) (f : Escrow → Escrow)
    (r : Escrow) (db : Db)
    → remaining_amount (f r) ≡ remaining_amount r
    → find id es ≡ some r
    → Books sum debt (modify id f es) db
    → remaining_amount (fresh_or e (find id db.escrows)) ≡ remaining_amount r
left_of es id e f r db keeps found b =
    rw (b.same, find-modify id id f es, found) (ground (arith, keeps))

module _ (now : ℕ) (r : Escrow) where
  pub release_row_keeps :
      (res : Option Resolution) → remaining_amount (release_row now res r) ≡ remaining_amount r
  unfolding remaining_amount
  release_row_keeps none = refl
  release_row_keeps (some x) = refl

  release_row_closes : (res : Option Resolution) → is_open (release_row now res r).status ≡ false
  release_row_closes none = refl
  release_row_closes (some x) = refl

module _ (env : Env) (fair : IsFeeFair env) (id bw sw : ℕ) (e : Escrow)
    (res : Option Resolution) where
  -- What the end of the transaction does, once the row is claimed.
  release_locked-Books :
      {sum : ℤ} {debt : ℕ → ℤ} {es : Table Escrow} (amount : ℕ) (db : Db)
      → Books sum debt es db
      → Post Any
          (λ _. Books sum (shift bw (negate (pos amount)) debt) es)
          (release_locked env id e bw sw amount db)
  unfolding release_locked
  release_locked-Books {debt = debt} amount db b =
      Post-branch (amount == 0) (pure 0) _ db
        (λ none. Post-pure 0 db (Books-mono b refl (λ k. shift_nothing bw amount debt k none)))
        λ some.
          Post-then (pay_seller env id e bw sw amount _ _) _ db
            (Books-pay_seller env id e bw sw amount _ _ db b (fair amount))
            λ _ d c. Post-pure amount d c

  -- The rest of the transaction, by whether the row was claimed. A claimed row was open, and as
  -- much of it as milestones have left is paid.
  after_claim :
      (db : Db) (claimed : Bool) (d : Db)
      → e.buyer_wallet_id ≡ some bw
      → IsRowOf id e db
      → Claimed
          (total db)
          (owed db.escrows)
          db.escrows
          id
          (λ r. status_eq r.status (settled_from res))
          (release_row env.now res)
          claimed
          d
      → Post Any
          (λ _ d'. (total d' ≡ total db) × Solvent d')
          ((raise_if (not claimed) (not_open res)
              >> (gets (λ d. find id d.escrows) >>= λ row.
                  release_locked env id e bw sw (remaining_amount (fresh_or e row))))
            d)
  after_claim db false d wallet same c =
      Post-check (not false) (not_open res) _ d tt (λ impossible. absurd (cc))
  after_claim db true d wallet same (r, found, passes, b) =
      Post-check (not true) (not_open res) _ d tt λ _.
        let left =
          left_of db.escrows id e (release_row env.now res) r d (release_row_keeps env.now r res)
            found b in
        Post-gets (λ d. find id d.escrows) _ d
          (rw left (
            Post-mono (release_locked env id e bw sw (remaining_amount r) d)
              (release_locked-Books (remaining_amount r) d b)
              λ _ d' c'. (
                c'.has_total,
                Solvent-of_Books d' (
                    Books-mono c' refl (λ k.
                      owed_less id bw (release_row env.now res) r db.escrows (remaining_amount r) k
                        found
                        (held-closed bw r (release_row env.now res r) k
                          (open_of r.status res passes) (same r found ∙ wallet)
                          (release_row_closes env.now r res)))),
              )))

  -- In any state of the tables, whatever happened since the caller read the row.
  release_tx-Books :
      (db : Db)
      → Solvent db
      → e.buyer_wallet_id ≡ some bw
      → IsRowOf id e db
      → Post Any (λ _ d'. (total d' ≡ total db) × Solvent d') (release_tx env id e res bw sw db)
  unfolding release_tx
  release_tx-Books db s wallet same =
      Post-bind (update_many_escrow id _ _) _ db
        (Books-claim id (λ r. status_eq r.status (settled_from res)) (release_row env.now res) db
          (Books-of_Solvent db s))
        λ claimed d c. after_claim db claimed d wallet same c

-- Take a release fee of at most its amount, a state in which every wallet covers what its open
-- escrows hold, and a caller's row that names the same buyer's wallet as the row in the table, but
-- may be stale otherwise. `executeRelease` that returns leaves the sum of all balances as it was
-- and every wallet covering what its open escrows hold; if it raises, all rows about money are as
-- they were.
pub execute_release-Keeps :
    (env : Env) (id : ℕ) (e : Escrow) (res : Option Resolution) (db : Db)
    → IsFeeFair env
    → Solvent db
    → IsRowOf id e db
    → Keeps db (execute_release env id e res db)
unfolding execute_release
execute_release-Keeps env id e res db fair s same = Keeps-of_Post _ (
    Post-or_raise _ e.buyer_wallet_id _ db (SameMoney-refl db) λ bw wallet.
      Post-or_raise _ e.seller_wallet_id _ db (SameMoney-refl db) λ sw _.
        Post-check (e.amount == 0) _ _ db (SameMoney-refl db) λ _.
          Post-transaction (release_tx env id e res bw sw) db (SameMoney-refl db)
            (release_tx-Books env fair id bw sw e res db s wallet same))
