-- ===== src/Store/Ops.antt =====
-- src/store/ops.rs: verification, statistics and the diagnostic export.
pub mod Text
pub mod Escape
pub mod Verify
pub mod Stats
pub mod Export
pub mod Pages
pub mod Complete
pub mod Redacted
pub mod Secrecy
pub mod Clean
pub mod Paging
