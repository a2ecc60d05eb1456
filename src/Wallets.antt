-- ===== src/Wallets.antt =====
-- Transfers between wallets (`sendFunds` of src/wallets/wallets.service.ts), and the platform's share
-- of them (`creditPlatformInTx` of src/fees/fee-defaults.ts).
--
-- The amount of a request is a finite number of atoms: its DTO lets no other number through.
-- Realtime updates, notifications and cache invalidation come after the transaction and are left
-- out, and so are the transaction's description and IP address.
mod Platform
mod Transfer
pub mod Conserve
pub mod Elsewhere
mod Examples
unfoldable pub use Platform.*
unfoldable pub use Transfer.*
