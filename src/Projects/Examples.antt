-- ===== src/Projects/Examples.antt =====
-- Tests and examples of a project's reserve.
use farm_backend.Prelude.{◌+◌, ◌≤◌, ◌≡◌, refl, arith, none, some, [], ◌∷◌}
use farm_backend.Prelude.Int.{pos, ◌+ℤ◌, ◌-ℤ◌, negate}
use farm_backend.Prelude.Text.{codes, trim, trim_start, trim_end, is_space}
use farm_backend.Prelude.Table.{find, find_first, modify, insert}
use farm_backend.Store.{
  Db, Project, Investment, closed_project, committed, refunded_all, adjust_wallet, write_wallet,
  create_transaction, create_entry, claim_in, claim_row, transaction, commit, pure, gets, or_raise,
  raise_if, next, ◌>>=◌, ◌>>◌,
}
use farm_backend.Store.Rules.{Post}
use farm_backend.Store.Balance.{total}
use farm_backend.Store.Every.{Every}
use farm_backend.Escrow.{active_wallet, platform_wallet}
use farm_backend.Requests.{rows_where}
use farm_backend.AgentPayments.{payer_wallet}
use farm_backend.Projects.Reserve.{
  has_reserve, reserve_left, debit_platform, draw_reserve, pay_from_reserve,
}
use farm_backend.Projects.Loss.{
  credit_investor, shares, is_invested, loss_part, loss_parts, repay_each, refund_for_loss,
}
use farm_backend.Projects.Kept.{Reserved}
use farm_backend.Projects.Uses.{unused, then_use, losing, reserve_never_overspent}
use farm_backend.Projects.Conserve.{refund_for_loss-Holds}
use farm_backend.Fixture.{env, market, wallet}

-- A project that has raised 100 FARM, of which 15 are its reserve.
abbrev project : Project
project = record {
  business_id = none;
  target_amount = 10_000_000_000;
  raised_amount = 10_000_000_000;
  minimum_investment = none;
  maximum_investment = none;
  total_backers = 2;
  status = closed_project;
  ends_at = none;
  review_notes = none;
  approved_at = none;
  listed_at = none;
  reviewed_by = none;
  released_amount = 0;
  consolidation_fee = 1_500_000_000;
  consolidation_fee_at = some 5;
  consolidation_refunded = 0;
  consolidation_released = 0;
}

abbrev invested : Investment
invested = record {
  user_id = some 1;
  project_id = 1;
  amount = 4_000_000_000;
  transaction_id = none;
  status = committed;
}

abbrev failed : Db
failed = record market {
  wallets =
      (1, wallet 1 (pos 0) (pos 0))
      ∷ (2, wallet 2 (pos 0) (pos 0))
      ∷ (3, wallet 3 (pos 1_500_000_000) (pos 0))
      ∷ [];
  projects = (1, project) ∷ [];
  investments =
      (1, invested)
      ∷ (2, record invested { user_id = some 2; amount = 6_000_000_000 })
      ∷ (3, record invested { status = refunded_all })
      ∷ [];
}

abbrev after_loss : Db
after_loss = (refund_for_loss env 1 (codes "Flood") failed).1

abbrev spent : Project
spent = record project { consolidation_refunded = 1_500_000_000 }

spent_at : find 1 after_loss.projects ≡ some spent
unfolding refund_for_loss repay_each credit_investor pay_from_reserve draw_reserve debit_platform
    has_reserve reserve_left loss_parts loss_part is_invested shares rows_where payer_wallet
    active_wallet platform_wallet adjust_wallet write_wallet create_transaction create_entry
    claim_in claim_row transaction commit pure gets or_raise raise_if next ◌>>=◌ ◌>>◌ find
    find_first modify insert trim trim_start trim_end is_space ◌+ℤ◌ ◌-ℤ◌ negate
spent_at = refl

-- 40 of the 100 FARM take 6 of the 15.
first_part : find 1 after_loss.wallets ≡ some (wallet 1 (pos 600_000_000) (pos 0))
unfolding refund_for_loss repay_each credit_investor pay_from_reserve draw_reserve debit_platform
    has_reserve reserve_left loss_parts loss_part is_invested shares rows_where payer_wallet
    active_wallet platform_wallet adjust_wallet write_wallet create_transaction create_entry
    claim_in claim_row transaction commit pure gets or_raise raise_if next ◌>>=◌ ◌>>◌ find
    find_first modify insert trim trim_start trim_end is_space ◌+ℤ◌ ◌-ℤ◌ negate
first_part = refl

failed-Reserved : Reserved failed
unfolding Every
failed-Reserved = (record { within = omega arith; uncharged = λ never. absurd (cc) }, tt)

reserve_never_overspent_example : 1_500_000_000 + 0 ≤ 1_500_000_000
reserve_never_overspent_example =
    reserve_never_overspent failed after_loss 1 spent failed-Reserved
      (then_use unused (losing env 1 (codes "Flood"))) spent_at

refund_for_loss-Holds_example :
    Post
      (λ d. d ≡ failed)
      (λ _ d. total d ≡ total failed)
      (refund_for_loss env 1 (codes "Flood") failed)
refund_for_loss-Holds_example = refund_for_loss-Holds env 1 (codes "Flood") failed
