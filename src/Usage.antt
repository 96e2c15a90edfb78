-- ===== src/Usage.antt =====
-- crates/usage-contract: the token counts that providers report.
pub mod Contract
pub mod Normalize
pub mod Steps
pub mod Accumulator
pub mod Event
pub mod Parts
pub mod Totals
pub mod Consistent
pub mod Closed
pub mod Kept
pub mod Valid
pub mod Soundness
pub mod Reports
pub mod Told
pub mod Accepted
pub mod Mismatch
pub mod Merged
pub mod Observed
mod Tests
