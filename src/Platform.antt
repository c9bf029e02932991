-- ===== src/Platform.antt =====
-- cmd/platform/main.go: how runService wires the components together.
pub mod Hooks
pub mod Reads
pub mod Wiring
pub mod Assignment
pub mod Checkins
mod Tests
