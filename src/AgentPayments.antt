-- ===== src/AgentPayments.antt =====
-- Payments to businesses and the agents that ask for them: AgentPaymentsService of
-- src/agent-payments/agent-payments.service.ts.
--
-- An intent asks a payer for an amount, a refund returns it or a part of it, and a mandate lets the
-- agent of a business ask a user, within caps, to confirm payments with the PIN. Webhooks,
-- notifications, the views of rows and the listings are left out. A handler's statements run in
-- order; what a concurrent create with the same idempotency key would do is left out.
mod Tables
mod Intents
mod Pay
mod Refund
mod Mandates
mod Agents
pub mod Caps
pub mod Returned
pub mod Confirm
pub mod Fair
pub mod Served
pub mod Bounded
pub mod Stale
pub mod Mandated
pub mod Runs
mod Examples
mod StaleExamples
unfoldable pub use Tables.*
unfoldable pub use Intents.*
unfoldable pub use Pay.*
unfoldable pub use Refund.*
unfoldable pub use Mandates.*
unfoldable pub use Agents.*
