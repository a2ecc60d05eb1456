-- ===== src/AgentPayments/Tables.antt =====
-- The tables of the service, its limits and who calls it.
use farm_backend.Prelude.{ℕ, ◌+◌, ◌*◌, ◌/◌, ⊤, refl, Bool, false, not, Option, none, some, ◌==◌}
use farm_backend.Prelude.Text.{Text, text_eq}
use farm_backend.Prelude.Table.{find}
use farm_backend.Store.{
  Business, Intent, IntentStatus, requires_payment, in_payment, succeeded, partially_returned,
  returned_all, expired, canceled, PaymentRefund, BusinessPayment, Mandate, AgentRequest, Field,
  Action, unavailable, not_found, gets, or_raise, raise_if, ◌>>=◌,
}

abbrev pub intent_rows : Field Intent
intent_rows = record {
  get = λ db. db.payment_intents;
  put = λ t db. record db { payment_intents = t };
  got = λ t db. refl;
  same_wallets = λ t db. refl;
  same_escrows = λ t db. refl;
  past_wallets = λ ws db. refl;
  past_users = λ us db. refl;
  past_transactions = λ ts db. refl;
  past_ledger = λ es db. refl;
}

abbrev pub refund_rows : Field PaymentRefund
refund_rows = record {
  get = λ db. db.payment_refunds;
  put = λ t db. record db { payment_refunds = t };
  got = λ t db. refl;
  same_wallets = λ t db. refl;
  same_escrows = λ t db. refl;
  past_wallets = λ ws db. refl;
  past_users = λ us db. refl;
  past_transactions = λ ts db. refl;
  past_ledger = λ es db. refl;
}

abbrev pub business_payment_rows : Field BusinessPayment
business_payment_rows = record {
  get = λ db. db.business_payments;
  put = λ t db. record db { business_payments = t };
  got = λ t db. refl;
  same_wallets = λ t db. refl;
  same_escrows = λ t db. refl;
  past_wallets = λ ws db. refl;
  past_users = λ us db. refl;
  past_transactions = λ ts db. refl;
  past_ledger = λ es db. refl;
}

abbrev pub mandate_rows : Field Mandate
mandate_rows = record {
  get = λ db. db.agent_authorizations;
  put = λ t db. record db { agent_authorizations = t };
  got = λ t db. refl;
  same_wallets = λ t db. refl;
  same_escrows = λ t db. refl;
  past_wallets = λ ws db. refl;
  past_users = λ us db. refl;
  past_transactions = λ ts db. refl;
  past_ledger = λ es db. refl;
}

abbrev pub agent_rows : Field AgentRequest
agent_rows = record {
  get = λ db. db.agent_requests;
  put = λ t db. record db { agent_requests = t };
  got = λ t db. refl;
  same_wallets = λ t db. refl;
  same_escrows = λ t db. refl;
  past_wallets = λ ws db. refl;
  past_users = λ us db. refl;
  past_transactions = λ ts db. refl;
  past_ledger = λ es db. refl;
}

-- `enabled()` and `limits()`, which the environment sets; amounts in atoms.
pub record Limits : Type 0 where
  pub enabled : Bool
  pub max_per_tx : ℕ
  pub max_monthly : ℕ
  pub request_ttl_min : ℕ
  pub intent_ttl_min : ℕ

unfoldable pub ensure : Limits → Action ⊤
ensure l = raise_if (not l.enabled) (unavailable "Agent payments are not enabled yet")

-- `BizCtx`
pub record Caller : Type 0 where
  pub business_id : ℕ
  pub owner_user_id : ℕ
  pub actor_user_id : Option ℕ
  pub live : Bool

-- `r2`: to hundredths of a FARM
unfoldable pub r2 : ℕ → ℕ
r2 n = (n + 500_000) / 1_000_000 * 1_000_000

-- `businessName`
unfoldable pub business_named : ℕ → Action Business
business_named id = do
  found ← gets (λ db. find id db.businesses)
  or_raise (not_found "Business not found") found

-- Whether a row carries the idempotency key.
abbrev pub has_key : Text → Option Text → Bool
has_key key none = false
has_key key (some k) = text_eq k key

abbrev pub rank : IntentStatus → ℕ
rank requires_payment = 0
rank in_payment = 1
rank succeeded = 2
rank partially_returned = 3
rank returned_all = 4
rank expired = 5
rank canceled = 6

-- `===` on statuses
unfoldable pub is_at : IntentStatus → IntentStatus → Bool
is_at s t = rank s == rank t
