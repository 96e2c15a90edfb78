-- ===== src/Management.antt =====
-- crates/management: the contract of management operations and their durable journal.
pub mod Contract
pub mod Journal
