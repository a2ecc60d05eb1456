-- ===== src/Fees/Examples.antt =====
-- Tests and examples of the fee schedule.
use farm_backend.Prelude.{◌≤◌, ◌+◌, ◌*◌, ◌≡◌, refl, none, some, [], ◌∷◌, arith}
use farm_backend.Prelude.Int.{pos}
use farm_backend.Prelude.Number.{finite, not_finite, JsNumber}
use farm_backend.Fees.Rule.{
  FeeKey, FeeRule, from_db, default_rule, default_percent, fee_defaults, atoms_per, micro,
  exact_fee, round_div, compute_fee,
}
use farm_backend.Fees.Schedule.{FeeEnv, rules}
use farm_backend.Fees.Bounds.{compute_fee_mono, fee-le-amount, compute_fee_near, fee-le-cap}
use farm_backend.Fees.Cache.{read, drop, after, IsYoung, rules_staleness}

abbrev unset : FeeKey → JsNumber
unset key = not_finite

-- 1.5 percent of 100 FARM.
release_fee :
    compute_fee (default_rule unset FeeKey.escrow_release) (finite (pos 10_000_000_000)) 2
    ≡ 150_000_000
unfolding compute_fee exact_fee round_div default_rule default_percent fee_defaults
release_fee = refl

-- Half a percent, at least 1 FARM and at most 20.
abbrev bounded : FeeRule
bounded = record {
  percent = 5_000;
  flat = 0;
  min_fee = 100_000_000;
  max_fee = 2_000_000_000;
  source = from_db;
  label = none;
  payer = none;
  destination_wallet_id = none;
}

-- 1 percent, with no bounds.
abbrev one_percent : FeeRule
one_percent = record {
  percent = 10_000;
  flat = 0;
  min_fee = 0;
  max_fee = 0;
  source = from_db;
  label = none;
  payer = none;
  destination_wallet_id = none;
}

at_least : compute_fee bounded (finite (pos 1_000_000_000)) 2 ≡ 100_000_000
unfolding compute_fee exact_fee round_div
at_least = refl

at_most : compute_fee bounded (finite (pos 1_000_000_000_000)) 2 ≡ 2_000_000_000
unfolding compute_fee exact_fee round_div
at_most = refl

fee-le-amount_example : compute_fee one_percent (finite (pos 12_345_678_900)) 2 ≤ 12_345_678_900
fee-le-amount_example = fee-le-amount one_percent 12_345_678_900 2 (omega arith) refl refl

compute_fee_mono_example :
    compute_fee bounded (finite (pos 1_000_000_000)) 2
    ≤ compute_fee bounded (finite (pos 90_000_000_000)) 2
compute_fee_mono_example =
    compute_fee_mono bounded (pos 1_000_000_000) (pos 90_000_000_000) 2 (omega arith)

compute_fee_near_example :
    let fee = compute_fee one_percent (finite (pos 12_345_678_900)) 2 in
    (2 * exact_fee one_percent 12_345_678_900 ≤ 2 * (fee * micro) + atoms_per 2 * micro)
    × (2 * (fee * micro) ≤ 2 * exact_fee one_percent 12_345_678_900 + atoms_per 2 * micro)
compute_fee_near_example = compute_fee_near one_percent 12_345_678_899 2

fee-le-cap_example : compute_fee bounded (finite (pos 900_000_000_000)) 2 ≤ 2_000_000_000
fee-le-cap_example = fee-le-cap bounded (pos 900_000_000_000) 2 2_000 (omega arith) refl

abbrev fee_env : FeeEnv
fee_env = record { percent = unset; consolidation_wallet = none }

rules_staleness_example :
    IsYoung fee_env
      (read 31_000 (some []) ∷ read 1_000 none ∷ drop ∷ read 0 (some []) ∷ [])
      31_000
      (rules fee_env
        (some [])
        31_000
        (after fee_env (read 1_000 none ∷ drop ∷ read 0 (some []) ∷ []))).0
rules_staleness_example =
    rules_staleness fee_env (read 1_000 none ∷ drop ∷ read 0 (some []) ∷ []) 31_000 (some [])
