-- ===== src/Continuation.antt =====
-- src/continuation: what a conversation keeps between two turns.
pub mod Contract
pub mod Store
pub mod Turns
pub mod Capacity
pub mod Outcomes
pub mod Promises
pub mod Attempts
pub mod Lone
pub mod Pending
pub mod Covered
pub mod Owned
pub mod Backing
pub mod Held
pub mod Hexadecimal
pub mod Flight
mod Tests
pub mod Replays
pub mod Native
pub mod Protector
pub mod Runtime
pub mod Sealed
pub mod Envelopes
pub mod Plugins
pub mod Settled
pub mod Finalized
pub mod Normalized
pub mod Restored
