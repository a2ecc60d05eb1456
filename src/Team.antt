-- ===== src/Team.antt =====
-- A business's team: src/business-ops/permissions.ts, `resolve` of
-- src/business-ops/business-access.service.ts, and `add`, `update` and `remove` of
-- src/business-ops/business-team.service.ts. Notifications and audit logs are left out.
mod Permissions
mod Access
mod Members
pub mod Escalation
mod Examples
unfoldable pub use Permissions.*
unfoldable pub use Access.*
unfoldable pub use Members.*
