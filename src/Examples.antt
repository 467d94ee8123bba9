-- ===== src/Examples.antt =====
-- Concrete tables, batches and requests, and the laws at them.
pub mod Data
pub mod Commits
pub mod Leases
pub mod Claims
pub mod Codes
pub mod Projections
pub mod Migrations
pub mod Exports
pub mod Histories
