-- ===== src/Store/Schema.antt =====
-- The tables that src/store/migrations.rs creates, at schema version 2, and the fate of a
-- transaction. Codes and blobs that the rows of src/store/ decode are kept decoded.
use minisqlite.Base.{
  ℕ, ℤ, Bytes, List, [], Option, Bool, true, false, not, ◌&&◌, ◌||◌, ltb, is_some, is_none,
}
use minisqlite.Id.{Id128}
use minisqlite.Config.{EffectMode}
use minisqlite.Event.{PersistedEvent}
use minisqlite.Jobs.State.{JobState, retry_wait, is_leased, is_terminal}

pub record TransactionRow : Type 0 where
  pub transaction_id : Id128
  pub transaction_sequence : ℕ
  pub committed_at_ms : ℤ
  pub correlation_id : Option Id128
  pub metadata : Bytes
  pub request_digest : Bytes
  pub operation_count : ℕ

pub record StreamRow : Type 0 where
  pub stream_id : Bytes
  pub current_version : ℕ

pub record MetaRow : Type 0 where
  pub projection : Bytes
  pub version : ℕ

pub record EntryRow : Type 0 where
  pub projection : Bytes
  pub key : Bytes
  pub value : Bytes

-- All columns of `jobs`; `JobRow` of src/store/jobs.rs has all but three of them.
pub record JobRow : Type 0 where
  pub job_id : Id128
  pub enqueue_sequence : ℕ
  pub enqueue_transaction_id : Id128
  pub queue : Bytes
  pub partition_key : Bytes
  pub payload : Bytes
  pub not_before_ms : ℤ
  pub max_attempts : ℕ
  pub effect_mode : EffectMode
  pub idempotency_key : Option Bytes
  pub state : JobState
  pub attempt : ℕ
  pub lease_token : Option Id128
  pub worker_id : Option Bytes
  pub lease_expires_at_ms : Option ℤ
  pub retry_after_ms : Option ℤ
  pub terminal_at_ms : Option ℤ
  pub result_digest : Option Bytes
  pub error_summary : Option Bytes
  pub updated_transaction_id : Id128

pub record CursorRow : Type 0 where
  pub queue : Bytes
  pub last_partition_key : Bytes

pub record PartitionRow : Type 0 where
  pub queue : Bytes
  pub partition_key : Bytes
  pub first_active_sequence : ℕ

pub record ReceiptRow : Type 0 where
  pub transaction_id : Id128
  pub job_id : Id128
  pub lease_token : Id128
  pub attempt : ℕ
  pub worker_id : Bytes
  pub lease_expires_at_ms : ℤ

pub record Db : Type 0 where
  pub transactions : List TransactionRow
  pub events : List PersistedEvent
  pub streams : List StreamRow
  pub projection_meta : List MetaRow
  pub projection_entries : List EntryRow
  pub jobs : List JobRow
  pub queue_cursors : List CursorRow
  pub active_partitions : List PartitionRow
  pub claim_receipts : List ReceiptRow

-- The tables after the migrations have run on a new file.
abbrev pub empty_db : Db
empty_db = record {
  transactions = [];
  events = [];
  streams = [];
  projection_meta = [];
  projection_entries = [];
  jobs = [];
  queue_cursors = [];
  active_partitions = [];
  claim_receipts = [];
}

abbrev pub is_retry_wait : JobState → Bool
is_retry_wait retry_wait = true
is_retry_wait _ = false

abbrev pub iff : Bool → Bool → Bool
iff true b = b
iff false b = not b

-- The CHECK constraints of `jobs_v2`.
unfoldable pub check_row : JobRow → Bool
check_row r =
    ltb 0 r.max_attempts
    && (not (is_leased r.state)
        || (is_some r.lease_token && (is_some r.worker_id && is_some r.lease_expires_at_ms)))
    && (is_leased r.state
        || (is_none r.lease_token && (is_none r.worker_id && is_none r.lease_expires_at_ms)))
    && (not (is_retry_wait r.state) || is_some r.retry_after_ms)
    && iff (is_terminal r.state) (is_some r.terminal_at_ms)

-- What becomes of a transaction: BEGIN IMMEDIATE fails, COMMIT succeeds, or COMMIT reports an
-- error, and what it wrote is durable or not.
pub data Fate : Type 0 where
  busy commits unknown_kept unknown_lost : Fate

-- What is durable after COMMIT, from what was there before the transaction and what it wrote.
unfoldable pub settle {ℓ} : {A : Type ℓ} → Fate → A → A → A
settle busy old written = old
settle commits old written = written
settle unknown_kept old written = written
settle unknown_lost old written = old
