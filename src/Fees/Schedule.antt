-- ===== src/Fees/Schedule.antt =====
-- `FeesService` (src/fees/fees.service.ts): the schedule read from the table, and its cache.
use farm_backend.Prelude.{
  ℕ, ◌+◌, Bool, true, false, Option, none, some, List, [], ◌∷◌, ◌&&◌, ltb, if◌then◌else◌,
}
use farm_backend.Prelude.Int.{pos, leb_ℤ}
use farm_backend.Prelude.Number.{JsNumber, finite, not_finite}
use farm_backend.Prelude.Text.{Text}
use farm_backend.Fees.Rule.{FeeKey, FeeRule, from_db, default_rule, compute_fee}

-- A row of fee_configurations. `key` is its transaction type, if that is one of `FEE_KEYS`.
pub record FeeRow : Type 0 where
  pub key : Option FeeKey
  pub is_active : Bool
  pub percentage_fee : Option ℕ
  pub flat_fee : Option ℕ
  pub minimum_fee : Option ℕ
  pub maximum_fee : Option ℕ
  pub label : Option Text
  pub payer : Option Text
  pub destination_wallet_id : Option ℕ

unfoldable pub key_eq : FeeKey → FeeKey → Bool
key_eq FeeKey.escrow_creation FeeKey.escrow_creation = true
key_eq FeeKey.escrow_release FeeKey.escrow_release = true
key_eq FeeKey.withdrawal FeeKey.withdrawal = true
key_eq FeeKey.investment FeeKey.investment = true
key_eq FeeKey.travel_commission FeeKey.travel_commission = true
key_eq FeeKey.merchant FeeKey.merchant = true
key_eq FeeKey.transfer FeeKey.transfer = true
key_eq FeeKey.project_listing FeeKey.project_listing = true
key_eq FeeKey.received_chain FeeKey.received_chain = true
key_eq FeeKey.agent_payment FeeKey.agent_payment = true
key_eq _ _ = false

abbrev pub or_zero : Option ℕ → ℕ
or_zero none = 0
or_zero (some n) = n

-- The query of `rules`: active rows of known keys, the newest first.
unfoldable pub applies : FeeKey → FeeRow → Bool
unfolding key_eq
applies key row = row.is_active && (elim row.key [ none ↦ false | some k ↦ key_eq k key ])

unfoldable pub find_row : FeeKey → List FeeRow → Option FeeRow
find_row key [] = none
find_row key (row ∷ rows) = if applies key row then some row else find_row key rows

unfoldable pub rule_of_row : FeeRow → FeeRule
rule_of_row row = record {
  percent = or_zero row.percentage_fee;
  flat = or_zero row.flat_fee;
  min_fee = or_zero row.minimum_fee;
  max_fee = or_zero row.maximum_fee;
  source = from_db;
  label = row.label;
  payer = row.payer;
  destination_wallet_id = row.destination_wallet_id;
}

-- What the service reads outside the database.
pub record FeeEnv : Type 0 where
  pub percent : FeeKey → JsNumber
  pub consolidation_wallet : Option ℕ

abbrev consolidation_default : FeeEnv → FeeKey → Option ℕ
consolidation_default env FeeKey.project_listing = env.consolidation_wallet
consolidation_default env _ = none

-- One turn of the loop over `FEE_KEYS`. `rows` is `none` where the query threw: no rows then.
unfoldable pub rule_from : FeeEnv → Option (List FeeRow) → FeeKey → FeeRule
unfolding find_row applies rule_of_row default_rule
rule_from env rows key = elim (find_row key (elim rows [ none ↦ [] | some rs ↦ rs ])) [
  | some row ↦ rule_of_row row
  | none ↦
      let base = default_rule env.percent key in
      record base { destination_wallet_id = consolidation_default env key }
]

-- The cache: the time at which the rules were read, and the rules.
abbrev pub Cache : Type 0
Cache = Option (ℕ × (FeeKey → FeeRule))

abbrev pub ttl_ms : ℕ
ttl_ms = 30_000

-- The elapsed time is compared as `now < at + ttl`, which also reads a clock that went back as
-- fresh, as `Date.now() - at < TTL_MS` does.
unfoldable pub rules : FeeEnv → Option (List FeeRow) → ℕ → Cache → (FeeKey → FeeRule) × Cache
rules env rows now none = let rs = rule_from env rows in (rs, some (now, rs))
rules env rows now (some (at, rs)) =
    let fresh = rule_from env rows in
    if ltb now (at + ttl_ms) then (rs, some (at, rs)) else (fresh, some (now, fresh))

unfoldable pub invalidate : Cache → Cache
invalidate c = none

-- `quote`: `key` is `none` for a type that is not in `FEE_KEYS`; the error is the message.
pub data Quote : Type 0 where
  quoted : (percent fee : ℕ) → Quote
  unknown_type not_positive : Quote

unfoldable pub quote : (FeeKey → FeeRule) → Option FeeKey → JsNumber → Quote
quote rs none amount = unknown_type
quote rs (some key) not_finite = not_positive
quote rs (some key) (finite amount) =
    if leb_ℤ amount (pos 0)
    then not_positive
    else quoted (rs key).percent (compute_fee (rs key) (finite amount) 2)
