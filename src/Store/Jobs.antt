-- ===== src/Store/Jobs.antt =====
-- src/store/jobs.rs: jobs, their leases and their reads. Claims are in Store/Claims.
pub mod Table
pub mod Ops
pub mod Lease
pub mod Read
pub mod Rows
pub mod Invariant
pub mod Heads
pub mod Preserve
pub mod Settle
pub mod Enqueue
pub mod Rules
pub mod Extension
pub mod Frame
pub mod Extended
pub mod Refusals
