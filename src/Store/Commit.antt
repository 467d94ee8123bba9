-- ===== src/Store/Commit.antt =====
-- src/store/commit.rs: validation, the commit pipeline and recovery.
pub mod Validate
pub mod Apply
pub mod Run
pub mod Preserve
pub mod Frame
pub mod Recovery
pub mod Exclusive
pub mod Rollback
pub mod Written
pub mod SameJobs
