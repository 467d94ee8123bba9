-- ===== src/Store.antt =====
-- src/store/: the tables and the operations on them. An operation inside a transaction takes the
-- tables and returns the new ones or an error; an error drops the transaction, which rolls back.
pub mod Schema
pub mod Jobs
pub mod Claims
pub mod Events
pub mod Projections
pub mod Commit
pub mod Checksum
pub mod Migrations
pub mod Ops
pub mod ReadPool
pub mod Facade
