-- ===== src/Device.antt =====
-- Package device: internal/device.
pub mod Model
pub mod Mac
pub mod Rows
pub mod Registry
pub mod Reconcile
pub mod Consistent
mod Tests
