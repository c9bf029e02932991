-- ===== src/Discovery.antt =====
-- Package discovery: internal/discovery.
pub mod Mac
pub mod Scanner
pub mod Sweep
pub mod Mdns
mod Tests
