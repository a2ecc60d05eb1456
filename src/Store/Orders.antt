-- ===== src/Store/Orders.antt =====
-- Rows of the tables that ask for money or collect it: transfer_requests and payment_requests, the
-- payment intents and agent mandates of businesses, and investment projects (prisma/schema.prisma).
use farm_backend.Prelude.{ℕ, Bool, Option}
use farm_backend.Prelude.Text.{Text}

-- transfer_request_status, payment_request_status
pub data RequestStatus : Type 0 where
  requested paid_out rejected called_off lapsed : RequestStatus

-- transfer_requests; payment_requests, where the payer is called the recipient
pub record MoneyRequest : Type 0 where
  pub request_reference : ℕ
  pub requester_user_id : Option ℕ
  pub requester_wallet_id : Option ℕ
  pub payer_user_id : Option ℕ
  pub payer_wallet_id : Option ℕ
  pub amount : ℕ
  pub status : RequestStatus
  pub transaction_id : Option ℕ
  pub expires_at : Option ℕ
  pub accepted_at : Option ℕ
  pub completed_at : Option ℕ
  pub rejected_at : Option ℕ

pub data IntentStatus : Type 0 where
  requires_payment in_payment succeeded partially_returned returned_all expired canceled :
      IntentStatus

-- payment_intents
pub record Intent : Type 0 where
  pub business_id : ℕ
  pub created_by : Option ℕ
  pub live_mode : Bool
  pub amount : ℕ
  pub description : Option Text
  pub reference : Option Text
  pub status : IntentStatus
  pub payer_user_id : Option ℕ
  pub transaction_reference : Option ℕ
  pub amount_refunded : ℕ
  pub idempotency_key : Option Text
  pub expires_at : ℕ
  pub paid_at : Option ℕ
  pub canceled_at : Option ℕ

-- payment_refunds
pub record PaymentRefund : Type 0 where
  pub intent_id : ℕ
  pub business_id : ℕ
  pub created_by : Option ℕ
  pub live_mode : Bool
  pub amount : ℕ
  pub reason : Option Text
  pub transaction_id : Option ℕ
  pub idempotency_key : Option Text

-- business_payments
pub record BusinessPayment : Type 0 where
  pub business_id : ℕ
  pub source_id : ℕ
  pub payer_user_id : ℕ
  pub amount : ℕ
  pub transaction_reference : ℕ
  pub by_agent : Bool

pub data MandateStatus : Type 0 where
  in_force revoked : MandateStatus

-- agent_authorizations
pub record Mandate : Type 0 where
  pub user_id : ℕ
  pub business_id : ℕ
  pub label : Option Text
  pub per_tx_cap : ℕ
  pub daily_cap : ℕ
  pub monthly_cap : ℕ
  pub status : MandateStatus
  pub expires_at : ℕ
  pub revoked_at : Option ℕ

pub data AgentStatus : Type 0 where
  awaiting in_progress confirmed declined withdrawn timed_out broken : AgentStatus

-- agent_payment_requests
pub record AgentRequest : Type 0 where
  pub authorization_id : ℕ
  pub user_id : ℕ
  pub business_id : ℕ
  pub intent_id : ℕ
  pub amount : ℕ
  pub status : AgentStatus
  pub transaction_reference : Option ℕ
  pub idempotency_key : Option Text
  pub expires_at : ℕ
  pub decided_at : Option ℕ
  pub created_at : ℕ

pub data ProjectStatus : Type 0 where
  draft submitted more_info_required approved turned_down listed open_legacy : ProjectStatus
  funded_project closed_project cancelled_project : ProjectStatus

-- investment_projects
pub record Project : Type 0 where
  pub business_id : Option ℕ
  pub target_amount : ℕ
  pub raised_amount : ℕ
  pub minimum_investment : Option ℕ
  pub maximum_investment : Option ℕ
  pub total_backers : ℕ
  pub status : ProjectStatus
  pub ends_at : Option ℕ
  pub review_notes : Option Text
  pub approved_at : Option ℕ
  pub listed_at : Option ℕ
  pub reviewed_by : Option ℕ
  pub released_amount : ℕ
  pub consolidation_fee : ℕ
  pub consolidation_fee_at : Option ℕ
  pub consolidation_refunded : ℕ
  pub consolidation_released : ℕ

pub data InvestmentStatus : Type 0 where
  committed deployed refunded_all refunded_part : InvestmentStatus

-- user_investments
pub record Investment : Type 0 where
  pub user_id : Option ℕ
  pub project_id : ℕ
  pub amount : ℕ
  pub transaction_id : Option ℕ
  pub status : InvestmentStatus
