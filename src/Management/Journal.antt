-- ===== src/Management/Journal.antt =====
-- crates/management/src/journal.rs: the journal, its reader, and what they keep.
pub mod Store
pub mod Recorded
pub mod Machine
pub mod Writer
pub mod Reader
pub mod Rows
pub mod Growth
pub mod Replayed
pub mod Kept
pub mod Accepted
pub mod Triples
pub mod Once
pub mod Settling
pub mod Calls
pub mod Entry
pub mod Reach
pub mod Quiet
pub mod Recovery
pub mod Duplicates
pub mod Reads
pub mod Tests
pub mod Crash
