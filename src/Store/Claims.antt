-- ===== src/Store/Claims.antt =====
-- The claim algorithm of src/store/jobs.rs: its plan, its transaction, and recovery.
pub mod Plan
pub mod Leases
pub mod Outcomes
pub mod Durable
pub mod Run
pub mod Recover
pub mod Granting
pub mod Maintaining
pub mod Preserve
pub mod Claimed
pub mod Progress
pub mod Readiness
pub mod Rotation
