-- ===== src/Transaction.antt =====
-- src/transaction.rs: commit batches, their receipts, and the canonical bytes that are hashed.
pub mod Writer
pub mod Canonical
pub mod Builder
use minisqlite.Base.{ℕ, ℤ, Bytes, List, Option}
use minisqlite.Id.{Id128}
use minisqlite.Event.{Event}
use minisqlite.Projection.{ProjectionPatch}
use minisqlite.Jobs.{JobSpec, JobAck, JobFailure, JobCancellation, JobResolution, LeaseExtension}

pub data Operation : Type 0 where
  append_event : Event → Operation
  projection_patch : ProjectionPatch → Operation
  enqueue_job : JobSpec → Operation
  ack_job : JobAck → Operation
  fail_job : JobFailure → Operation
  cancel_job : JobCancellation → Operation
  resolve_job : JobResolution → Operation
  extend_lease : LeaseExtension → Operation

pub record ExpectedStreamVersion : Type 0 where
  pub stream_id : Bytes
  pub version : ℕ

pub record CommitBatch : Type 0 where
  pub transaction_id : Id128
  pub committed_at_ms : ℤ
  pub correlation_id : Option Id128
  pub metadata : Bytes
  pub expected_stream_versions : List ExpectedStreamVersion
  pub operations : List Operation

pub record CommitReceipt : Type 0 where
  pub transaction_id : Id128
  pub transaction_sequence : ℕ
  pub committed_at_ms : ℤ

pub data TransactionRecovery : Type 0 where
  committed : CommitReceipt → TransactionRecovery
  absent : TransactionRecovery
