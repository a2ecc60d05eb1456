-- ===== src/Projects.antt =====
-- The consolidation reserve of investment projects: src/project-marketplace/consolidation.ts, and
-- `closeRound`, `refundReserveForLoss`, `releaseReserveToFarm` and `creditInvestor` of
-- src/project-marketplace/project-review.service.ts.
--
-- The rows of project_reviews and the category of a ledger entry are not kept.
mod Reserve
mod Loss
pub mod Kept
pub mod Uses
pub mod Conserve
mod Examples
unfoldable pub use Reserve.*
unfoldable pub use Loss.*
