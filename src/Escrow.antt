-- ===== src/Escrow.antt =====
-- The escrow service: src/escrow/escrow.service.ts, and the admin's decision on a dispute
-- (`resolveDispute` of src/admin/admin.service.ts).
--
-- A handler is an action over the tables. Its reads before the database transaction are a part of
-- their own (`create_checks`, or the row that `execute_release` and `execute_refund` are given), so
-- that a theorem on the transaction holds whatever other handlers did in between. Notifications and
-- websocket events, which are sent after the commit and whose failures are caught, are left out.
pub mod Env
mod Money
mod Create
mod Release
mod Partial
mod Refund
mod Attachment
mod Dispute
pub mod Debt
pub mod Settle
pub mod Giveback
pub mod Funding
pub mod Checks
pub mod Milestone
pub mod Disputes
pub mod Requests
pub mod Handlers
pub mod Settled
pub mod Stays
pub mod Guard
pub mod Once
pub mod Returns
mod Examples
unfoldable pub use Env.*
unfoldable pub use Money.*
unfoldable pub use Create.*
unfoldable pub use Release.*
unfoldable pub use Partial.*
unfoldable pub use Refund.*
unfoldable pub use Attachment.*
unfoldable pub use Dispute.*
