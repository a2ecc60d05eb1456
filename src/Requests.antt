-- ===== src/Requests.antt =====
-- Requests for money between users: src/transfer-requests/transfer-requests.service.ts and
-- src/payment-requests/payment-requests.service.ts.
--
-- The two services run the same code on a table each, with other words in the exceptions; only
-- how `acceptAndTransfer` finds out who sends it differs. The shared code is written once, over a
-- `Service`, and each handler of each service is its instance. Notifications and websocket events,
-- which follow the commit, and the listings are left out.
mod Service
mod Ask
mod Accept
mod Close
pub mod Sound
pub mod Conserve
pub mod Avoids
pub mod Untouched
pub mod Settled
pub mod Once
pub mod Sweep
pub mod Interleaved
pub mod Expired
mod Examples
mod SweepExamples
unfoldable pub use Service.*
unfoldable pub use Ask.*
unfoldable pub use Accept.*
unfoldable pub use Close.*
