-- ===== src/Api.antt =====
-- Package api: internal/api, the HTTP handlers over the stores.
pub mod Reply
pub mod People
pub mod Accounts
pub mod Agents
pub mod Devices
pub mod Policies
pub mod Reports
pub mod Router
pub mod Pages
mod Tests
