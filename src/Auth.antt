-- ===== src/Auth.antt =====
-- Package auth: internal/auth.
pub mod Gate
pub mod Accounts
mod Tests
