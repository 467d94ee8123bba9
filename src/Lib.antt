-- ===== src/Lib.antt =====
-- minisqlite is a library over SQLite that keeps, in one file and in one kind of transaction, an
-- event log, projections and job queues. This library models its logic over tables that are
-- lists of rows.
--
-- Parts, and the files that model them:
-- - Base: Boolean tests on native numbers, byte strings (a Rust `String` is its UTF-8 bytes),
--   `i64` as an integer type with its casts, and Rust's `Result` with rules that carry a
--   postcondition through it.
-- - Id, Config, Errors, Event, Projection, Jobs, Transaction: the data types of src/id.rs,
--   src/config.rs, src/error.rs, src/event.rs, src/projection.rs, src/jobs.rs and
--   src/transaction.rs, with the validations and the codes. A struct is a record, an enum a data
--   type. An id is a number below 2 ^ 128. A `ValidationError` keeps the data that the message
--   shows.
-- - Sha256: the incremental hasher of src/sha256.rs. Transaction/Canonical is what
--   `request_digest` feeds to it, in one piece.
-- - Sql: SELECT, UPDATE, DELETE, upsert, ORDER BY and LIMIT on lists of rows in insertion order.
--   What SQLite does with a statement is taken from its documentation; a statement fails only by a
--   constraint of the schema, or when the table of migrations is not there.
-- - Store/Schema: the tables of src/store/migrations.rs at schema version 2, the CHECK
--   constraints of `jobs`, and the fate of a transaction. An operation in a transaction takes the
--   tables and returns the new ones or an error, which rolls back.
-- - Store/Jobs: the job operations of src/store/jobs.rs; `JobsOk` is the invariant of the job
--   tables. Its rows meet the CHECK constraints, use no more attempts than their limit and keep
--   one attempt while they wait for a claim. Ids are distinct and sequences increase. While a job
--   of a partition is nonterminal, later nonterminal jobs of it were never claimed.
--   `active_partitions` lists exactly the partitions with a nonterminal job.
-- - Store/Claims: `claim_jobs` and `recover_claim` of src/store/jobs.rs. The random bytes of the
--   operating system are an argument.
-- - Store/Events, Store/Projections: src/store/events.rs and src/store/projections.rs.
-- - Store/Commit: `commit` and `recover_transaction` of src/store/commit.rs, over all of the
--   above.
-- - Store/Migrations: `migrate`, `require_current` and `status` of src/store/migrations.rs on a
--   file, which is the table of migrations and a schema. What SQLite makes of the SQL text is a
--   parameter; each migration has a transaction with a fate of its own.
-- - Store/Ops: `verify`, `stats` and `diagnostic_export` of src/store/ops.rs. What the integrity
--   checks of SQLite report and the size of the file are arguments. A rowid is a position in the
--   table, since rowids grow in the order of insertion. Where a query has no ORDER BY the rows
--   come in the order of the table.
-- - Store/Facade, Store/ReadPool: `StoreBuilder` and `ControlPlaneStore` of src/store/mod.rs
--   with the pool of src/store/read_pool.rs. A connection is a handle of an abstract type, and
--   what opening one returns is an argument. An operation on the writer is one step, since the
--   writer stands behind a mutex; a read is one step or two, since the lock of the pool is held
--   only while a connection is taken or put back.
-- - Examples: concrete tables, and the laws at them.
--
-- Bounds: `u64` and `u32` values are numbers, with `% 2 ^ w` where the source wraps and a test
-- where it checks. Sequences and stream versions count rows, so they stay below 2 ^ 63 and their
-- casts to `i64` are left out; cursors and limits come from callers and are cast. The decimal
-- digits of a 64-bit number are at most 20, which is the fuel of `decimal`. The padding loop of
-- SHA-256 has 64 rounds of fuel, and an export one page for each row and one more.
--
-- Not modelled: opening connections and their pragmas, backup, the command line and the Node
-- binding. They are I/O and calls of rusqlite around the functions above.
--
-- The hash map of stream versions is a list with one row for each key; the source reads it by
-- key only, and its order in the last loop does not matter because the keys are distinct.
pub mod Base
pub mod Id
pub mod Config
pub mod Errors
pub mod Jobs
pub mod Event
pub mod Projection
pub mod Transaction
pub mod Sql
pub mod Sha256
pub mod Store
pub mod Examples
