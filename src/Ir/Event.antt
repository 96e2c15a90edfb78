-- ===== src/Ir/Event.antt =====
-- src/ir/event.rs: the validator of output events.
pub mod Types
pub mod Handlers
pub mod Rejects
pub mod Steps
pub mod Accepts
pub mod Exact
pub mod Valid
pub mod Bounds
pub mod Frozen
pub mod Traces
mod Tests
