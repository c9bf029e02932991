-- ===== src/Policy.antt =====
-- Package policy: internal/policy.
pub mod Model
pub mod Schedule
pub mod Resolver
pub mod Store
mod Tests
