-- ===== src/Store.antt =====
-- The tables that the money operations read and write (prisma/schema.prisma), the actions over
-- them, and the rules by which the other modules reason about an action.
mod Orders
mod Rows
mod Effects
pub mod Rules
pub mod Balance
pub mod Ledger
mod Fields
pub mod Side
pub mod Apart
pub mod Every
pub use Orders.*
pub use Rows.*
unfoldable pub use Fields.*
unfoldable pub use Effects.*
