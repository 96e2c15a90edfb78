-- ===== src/Editing.antt =====
-- src/editing: edits of files as values, as patches, and back.
pub mod Context
pub mod Rendered
pub mod Body
pub mod Inverse
pub mod Inner
pub mod Accepts
pub mod Paths
pub mod Operations
pub mod Chunks
pub mod Grouped
pub mod Bundles
pub mod Envelope
pub mod Helper
mod Tests
