-- ===== src/Escrow/Partial.antt =====
-- `EscrowService.releasePartial`: one milestone.
use farm_backend.Prelude.{ℕ, ◌+◌, ◌*◌, ⊤, Bool, true, false, not, some, ◌&&◌, ◌==◌, leb}
use farm_backend.Prelude.Int.{pos, pos_part}
use farm_backend.Prelude.Number.{JsNumber, finite, not_finite}
use farm_backend.Prelude.Text.{Text}
use farm_backend.Prelude.Table.{find}
use farm_backend.Fees.{FeeKey, compute_fee, round_div}
use farm_backend.Auth.{verify_pin}
use farm_backend.Store.{
  Escrow, active, completed, Action, Error, bad_request, forbidden, pure, gets, or_raise, raise_if,
  transaction, update_escrow, update_many_escrow, ◌>>=◌, ◌>>◌,
}
use farm_backend.Escrow.Env.{Env}
use farm_backend.Escrow.Money.{remaining_amount, is_id}
use farm_backend.Escrow.Release.{
  status_eq, pay_seller, fresh_or, get_escrow_or_fail, cannot_release,
}

-- `Number(Number(amount).toFixed(2))` of a positive number, in atoms. What is not positive is
-- refused in any case.
unfoldable pub to_cents : JsNumber → ℕ
to_cents not_finite = 0
to_cents (finite a) = round_div (pos_part a) 1_000_000 * 1_000_000

abbrev pub can_claim : ℕ → Escrow → Bool
can_claim part r = status_eq r.status active && leb (r.released_amount + part) r.amount

abbrev pub claimed_part : ℕ → Escrow → Escrow
claimed_part part r = record r { released_amount = r.released_amount + part }

abbrev pub finished : ℕ → Escrow → Escrow
finished now r = record r { status = completed; released_at = some now }

pub record PartResult : Type 0 where
  pub amount : ℕ
  pub fee : ℕ
  pub released_amount : ℕ
  pub remaining : ℕ
  pub is_completed : Bool

-- `completed` is set once nothing is left.
unfoldable pub complete_if_paid : ℕ → ℕ → Bool → Action ⊤
complete_if_paid now id false = pure tt
complete_if_paid now id true = do update_escrow id (finished now); pure tt

abbrev pub over_claimed : Error
over_claimed = bad_request "Escrow is no longer active or the amount exceeds what is still locked"

-- The transaction after the claim, on the row as it is then.
unfoldable pub settle_part :
    Env
    → ℕ
    → Escrow
    → (buyer_wallet seller_wallet : ℕ) → (part : ℕ) → Text
    → Escrow
    → Action PartResult
unfolding complete_if_paid
settle_part env id e buyer_wallet seller_wallet part label row = do
  let fee = compute_fee (env.rule FeeKey.escrow_release) (finite (pos part)) 2
  let done = remaining_amount row == 0
  complete_if_paid env.now id done
  pay_seller env id e buyer_wallet seller_wallet part fee (some label)
  pure (record {
    amount = part;
    fee = fee;
    released_amount = row.released_amount;
    remaining = remaining_amount row;
    is_completed = done;
  })

unfoldable pub partial_tx :
    Env → ℕ → Escrow → (buyer_wallet seller_wallet : ℕ) → (part : ℕ) → Text → Action PartResult
unfolding status_eq settle_part
partial_tx env id e buyer_wallet seller_wallet part label = do
  claimed ← update_many_escrow id (can_claim part) (claimed_part part)
  raise_if (not claimed) over_claimed
  found ← gets (λ db. find id db.escrows)
  settle_part env id e buyer_wallet seller_wallet part label (fresh_or e found)

unfoldable pub release_partial : Env → ℕ → ℕ → JsNumber → Text → Text → Action PartResult
unfolding get_escrow_or_fail to_cents status_eq
release_partial env id buyer_id amount pin label = do
  let part = to_cents amount
  raise_if (part == 0) (bad_request "Release amount must be positive")
  e ← get_escrow_or_fail id
  raise_if (not (is_id buyer_id e.buyer_id)) (forbidden "Only the buyer can release")
  raise_if (not (status_eq e.status active)) cannot_release
  buyer_wallet ←
      or_raise (bad_request "Escrow is missing a buyer or seller wallet") e.buyer_wallet_id
  seller_wallet ←
      or_raise (bad_request "Escrow is missing a buyer or seller wallet") e.seller_wallet_id
  verify_pin env.bcrypt buyer_id pin
  transaction (partial_tx env id e buyer_wallet seller_wallet part label)
