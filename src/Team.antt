-- ===== src/Team.antt =====
-- crates/team-access: subjects, credentials, and who they authenticate.
pub mod Contract
pub mod Store
pub mod Transaction
pub mod Manager
pub mod Auth
pub mod Scope
pub mod Authentic
pub mod Keys
pub mod Later
pub mod Applied
pub mod Written
pub mod Reach
pub mod Generation
pub mod Receipts
pub mod Rotation
pub mod Issued
pub mod Issuance
pub mod Answers
mod Cases
mod Tests
