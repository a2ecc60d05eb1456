-- ===== src/Store/Balance.antt =====
-- Sums of balances, and how far the wallets cover what is locked in escrow.
use farm_backend.Prelude.{
  ℕ, ◌≡◌, refl, sym, ◌∙◌, Bool, true, false, Option, none, some, ◌==◌, if◌then◌else◌, subst, ==_iff,
  some_inj,
}
use farm_backend.Prelude.Int.{ℤ, ◌+ℤ◌, ◌≤ℤ◌, int_laws, parts_of_eq}
use farm_backend.Prelude.Table.{Table, find, modify, sum_by, find-modify, sum_by-modify, map_if}
use farm_backend.Store.Rows.{Db, Wallet, Escrow}
use farm_backend.Store.Effects.{moved, write_wallet, adjust_wallet}
use farm_backend.Store.Rules.{Post, returns, raises, Any}

-- All the FARM that the wallets hold.
unfoldable pub total : Db → ℤ
total db = sum_by (λ (w : Wallet). w.balance) db.wallets

-- Every wallet has at least `debt` of its balance locked, and no more locked than it holds.
abbrev pub IsCovered : (ℕ → ℤ) → Table Wallet → Type 0
IsCovered debt ws =
    (k : ℕ) (w : Wallet)
    → find k ws ≡ some w
    → (debt k ≤ℤ w.locked_balance) × (w.locked_balance ≤ℤ w.balance)

-- A debt that changes at one wallet.
abbrev pub shift : ℕ → ℤ → (ℕ → ℤ) → ℕ → ℤ
shift k by debt j = if k == j then debt j +ℤ by else debt j

pub record Books (sum : ℤ) (debt : ℕ → ℤ) (es : Table Escrow) (db : Db) : Type 0 where
  pub has_total : total db ≡ sum
  pub covers : IsCovered debt db.wallets
  pub same : db.escrows ≡ es

-- The room that an adjustment needs at the wallet that it changes.
abbrev pub HasRoom : ℕ → ℤ → ℤ → Db → Type 0
HasRoom k by lock db =
    (w : Wallet) → find k db.wallets ≡ some w → w.locked_balance +ℤ lock ≤ℤ w.balance +ℤ by

covered_row :
    (d : ℤ) (c : Bool) (by lock : ℤ) (o : Option Wallet) (w : Wallet)
    → ((x : Wallet) → o ≡ some x → (d ≤ℤ x.locked_balance) × (x.locked_balance ≤ℤ x.balance))
    → (c ≡ true → (x : Wallet) → o ≡ some x → x.locked_balance +ℤ lock ≤ℤ x.balance +ℤ by)
    → map_if c (moved by lock) o ≡ some w
    → ((if c then d +ℤ lock else d) ≤ℤ w.locked_balance) × (w.locked_balance ≤ℤ w.balance)
covered_row d c by lock none w old room e = cc
covered_row d true by lock (some x) w old room e =
    subst (λ (w : Wallet). (d +ℤ lock ≤ℤ w.locked_balance) × (w.locked_balance ≤ℤ w.balance))
      (some_inj e) (omega (int_laws, (old x refl).0), room refl x refl)
covered_row d false by lock (some x) w old room e =
    subst (λ (w : Wallet). (d ≤ℤ w.locked_balance) × (w.locked_balance ≤ℤ w.balance)) (some_inj e)
      (old x refl)

IsCovered-modify :
    (debt : ℕ → ℤ) (k : ℕ) (by lock : ℤ) (ws : Table Wallet)
    → IsCovered debt ws
    → ((w : Wallet) → find k ws ≡ some w → w.locked_balance +ℤ lock ≤ℤ w.balance +ℤ by)
    → IsCovered (shift k lock debt) (modify k (moved by lock) ws)
IsCovered-modify debt k by lock ws cov room j w e =
    covered_row (debt j) (k == j) by lock (find j ws) w (cov j)
      (λ same x found. room x (subst (λ i. find i ws ≡ some x) (sym ((==_iff k j).0 same)) found))
      (sym (find-modify j k (moved by lock) ws) ∙ e)

adjusted :
    {sum : ℤ} {debt : ℕ → ℤ} {es : Table Escrow} (k : ℕ) (by lock : ℤ) (db : Db) (o : Option Wallet)
    → find k db.wallets ≡ o
    → Books sum debt es db
    → HasRoom k by lock db
    → Post Any (λ _. Books (sum +ℤ by) (shift k lock debt) es) (write_wallet k (moved by lock) o db)
unfolding write_wallet total
adjusted k by lock db none h b room = raises tt
adjusted {debt = debt} k by lock db (some w) h b room = returns (record {
  has_total = omega (
    int_laws,
    parts_of_eq b.has_total,
    parts_of_eq (sum_by-modify (λ (w : Wallet). w.balance) k (moved by lock) db.wallets h),
  );
  covers = IsCovered-modify debt k by lock db.wallets b.covers room;
  same = b.same;
})

pub Books-adjust :
    {sum : ℤ} {debt : ℕ → ℤ} {es : Table Escrow} (k : ℕ) (by lock : ℤ) (db : Db)
    → Books sum debt es db
    → HasRoom k by lock db
    → Post Any (λ _. Books (sum +ℤ by) (shift k lock debt) es) (adjust_wallet k by lock db)
unfolding adjust_wallet
Books-adjust k by lock db b room = adjusted k by lock db (find k db.wallets) refl b room
