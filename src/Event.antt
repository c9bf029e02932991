-- ===== src/Event.antt =====
-- Package event: internal/event.
pub mod Model
pub mod Redact
pub mod Log
pub mod Logger
pub mod Usage
pub mod Blocks
mod Tests
