-- ===== src/Auth.antt =====
-- Who may move money: the transaction PIN (src/auth/auth.service.ts) and the trusted device
-- (src/security/security.service.ts).
mod Pin
mod Device
pub mod Lockout
pub mod Harmless
mod Examples
unfoldable pub use Pin.*
unfoldable pub use Device.*
