-- ===== src/Enforce.antt =====
-- Package enforce: internal/enforce.
pub mod Enforcer
pub mod Coordinator
pub mod Agent
pub mod Noop
mod Tests
