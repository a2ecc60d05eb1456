-- ===== src/Fees/Rule.antt =====
-- The keys, the defaults and the arithmetic of src/fees/fee-defaults.ts.
use farm_backend.Prelude.{
  ℕ, ◌+◌, ◌-◌, ◌*◌, ◌/◌, ◌^◌, min, max, Option, none, ◌&&◌, ltb, if◌then◌else◌,
}
use farm_backend.Prelude.Int.{pos, pos_part, leb_ℤ}
use farm_backend.Prelude.Number.{JsNumber, finite, not_finite}
use farm_backend.Prelude.Text.{Text}

pub data FeeKey : Type 0 where
  escrow_creation escrow_release withdrawal investment travel_commission merchant transfer : FeeKey
  project_listing received_chain agent_payment : FeeKey

pub data FeeSource : Type 0 where
  from_db from_env from_default : FeeSource

pub record FeeRule : Type 0 where
  pub percent : ℕ  -- 10^-4 percent
  pub flat : ℕ  -- atoms, as are `min_fee` and `max_fee`
  pub min_fee : ℕ
  pub max_fee : ℕ  -- 0 = no cap
  pub source : FeeSource
  pub label : Option Text
  pub payer : Option Text
  pub destination_wallet_id : Option ℕ

-- `FEE_DEFAULTS`
unfoldable pub fee_defaults : FeeKey → ℕ
fee_defaults FeeKey.escrow_creation = 15_000
fee_defaults FeeKey.escrow_release = 15_000
fee_defaults FeeKey.withdrawal = 15_000
fee_defaults FeeKey.investment = 30_000
fee_defaults FeeKey.travel_commission = 50_000
fee_defaults FeeKey.merchant = 10_000
fee_defaults FeeKey.transfer = 0
fee_defaults FeeKey.project_listing = 150_000
fee_defaults FeeKey.received_chain = 0
fee_defaults FeeKey.agent_payment = 0

abbrev pub percent_scale : ℕ
percent_scale = 10_000

-- `defaultPercent`: `env key` is `Number(process.env[...])`, or NaN where that is not set.
unfoldable pub default_percent : (FeeKey → JsNumber) → FeeKey → ℕ × FeeSource
unfolding fee_defaults
default_percent env key = elim (env key) [
  | finite n ↦
      if leb_ℤ (pos 0) n && leb_ℤ n (pos (100 * percent_scale))
      then (pos_part n, from_env)
      else (fee_defaults key, from_default)
  | not_finite ↦ (fee_defaults key, from_default)
]

-- The atoms in one unit of the last decimal that is kept.
abbrev pub atoms_per : ℕ → ℕ
atoms_per dp = 10 ^ (8 - dp)

-- Fees before rounding are in millionths of an atom.
abbrev pub micro : ℕ
micro = 1_000_000

-- `Math.round(x / u)`: a half goes up.
unfoldable pub round_div : ℕ → ℕ → ℕ
round_div x u = (2 * x + u) / (2 * u)

-- Percentage and flat fee, raised to the minimum and cut at the cap.
unfoldable pub exact_fee : FeeRule → ℕ → ℕ
exact_fee rule amount =
    let plain = amount * rule.percent + rule.flat * micro in
    let raised = if ltb 0 rule.min_fee then max (rule.min_fee * micro) plain else plain in
    if ltb 0 rule.max_fee then min (rule.max_fee * micro) raised else raised

-- `computeFee`
unfoldable pub compute_fee : FeeRule → JsNumber → ℕ → ℕ
unfolding exact_fee
compute_fee rule not_finite dp = 0
compute_fee rule (finite amount) dp =
    if leb_ℤ amount (pos 0)
    then 0
    else max 0 (round_div (exact_fee rule (pos_part amount)) (atoms_per dp * micro) * atoms_per dp)

-- The rule that `ruleFor` and `feeFor` take where no service is injected.
unfoldable pub default_rule : (FeeKey → JsNumber) → FeeKey → FeeRule
unfolding default_percent
default_rule env key =
    let (v, src) = default_percent env key in
    record {
      percent = v;
      flat = 0;
      min_fee = 0;
      max_fee = 0;
      source = src;
      label = none;
      payer = none;
      destination_wallet_id = none;
    }
