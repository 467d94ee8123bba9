-- ===== src/Examples/Data.antt =====
-- The tables, batches and requests of the examples.
use minisqlite.Base.{ℕ, refl, pos, Bytes, utf8, [], ◌∷◌, Option, none, some, arith}
use minisqlite.Config.{explicitly_idempotent}
use minisqlite.Event.{Event, PersistedEvent}
use minisqlite.Projection.{ProjectionPatch, put, delete}
use minisqlite.Jobs.{JobSpec, ClaimRequest}
use minisqlite.Jobs.State.{leased, pending, succeeded}
use minisqlite.Sql.{exists_row}
use minisqlite.Store.Schema.{Db, JobRow, TransactionRow, EntryRow, empty_db, check_row}
use minisqlite.Store.Jobs.Invariant.{JobsOk}
use minisqlite.Transaction.{CommitBatch, enqueue_job, append_event}

abbrev pub queue : Bytes
queue = utf8 "mail"

abbrev pub partition : Bytes
partition = utf8 "eu"

abbrev pub spec : JobSpec
spec = record {
  job_id = 7;
  queue = queue;
  partition_key = partition;
  payload = 1 ∷ 2 ∷ [];
  not_before_ms = pos 0;
  max_attempts = 3;
  effect_mode = explicitly_idempotent;
  idempotency_key = none;
}

abbrev pub event : Event
event = record {
  event_id = 9;
  stream_id = utf8 "orders";
  event_type = utf8 "placed";
  schema_version = 1;
  occurred_at_ms = pos 5;
  causation_id = none;
  correlation_id = none;
  payload = 3 ∷ [];
  metadata = [];
}

-- An event and a job.
abbrev pub batch : CommitBatch
batch = record {
  transaction_id = 100;
  committed_at_ms = pos 1000;
  correlation_id = none;
  metadata = [];
  expected_stream_versions = record { stream_id = utf8 "orders"; version = 0 } ∷ [];
  operations = append_event event ∷ enqueue_job spec ∷ [];
}

abbrev pub transaction : TransactionRow
transaction = record {
  transaction_id = 50;
  transaction_sequence = 1;
  committed_at_ms = pos 10;
  correlation_id = none;
  metadata = [];
  request_digest = [];
  operation_count = 1;
}

abbrev pub leased_job : JobRow
leased_job = record {
  job_id = 7;
  enqueue_sequence = 1;
  enqueue_transaction_id = 50;
  queue = queue;
  partition_key = partition;
  payload = 1 ∷ 2 ∷ [];
  not_before_ms = pos 0;
  max_attempts = 3;
  effect_mode = explicitly_idempotent;
  idempotency_key = none;
  state = leased;
  attempt = 1;
  lease_token = some 77;
  worker_id = some (utf8 "w");
  lease_expires_at_ms = some (pos 500);
  retry_after_ms = none;
  terminal_at_ms = none;
  result_digest = none;
  error_summary = none;
  updated_transaction_id = 50;
}

abbrev pub finished_job : JobRow
finished_job = record leased_job {
  job_id = 8;
  enqueue_sequence = 2;
  state = succeeded;
  lease_token = none;
  worker_id = none;
  lease_expires_at_ms = none;
  terminal_at_ms = some (pos 40);
}

abbrev pub old_event : PersistedEvent
old_event = record { transaction_id = 50; global_sequence = 1; stream_version = 1; event = event }

abbrev pub entry : EntryRow
entry = record { projection = utf8 "totals"; key = utf8 "eu:1"; value = 4 ∷ [] }

-- A claimed job and a finished one, an event and a projection of two entries.
abbrev pub db : Db
db = record empty_db {
  transactions = transaction ∷ [];
  events = old_event ∷ [];
  projection_meta = record { projection = utf8 "totals"; version = 1 } ∷ [];
  projection_entries = entry ∷ record entry { key = utf8 "us:1" } ∷ [];
  jobs = leased_job ∷ finished_job ∷ [];
  active_partitions =
      record { queue = queue; partition_key = partition; first_active_sequence = 1 } ∷ [];
}

-- A second event in another stream.
abbrev pub two_events : Db
two_events = record db {
  events =
      old_event
      ∷ record old_event {
        global_sequence = 2;
        event = record event { event_id = 901; stream_id = utf8 "other" };
      }
      ∷ [];
}

pub db-JobsOk : JobsOk db
unfolding exists_row check_row
db-JobsOk = record {
  rows = (
    record { checks = refl; attempts = omega arith; left = λ w. cc; word = omega arith },
    (record { checks = refl; attempts = omega arith; left = λ w. cc; word = omega arith }, tt),
  );
  chain = ((record { ids = refl; sequences = omega arith; waits = λ a p b. cc }, tt), (tt, tt));
  partitions = λ q p. refl;
}

abbrev pub request : ClaimRequest
request = record {
  queue = queue;
  worker_id = utf8 "w";
  now_ms = pos 2000;
  lease_ms = pos 100;
  limit = 4;
}

-- Every draw succeeds.
abbrev pub draws : ℕ → Option Bytes
draws n = some (0 ∷ 0 ∷ 0 ∷ 0 ∷ 0 ∷ 0 ∷ 0 ∷ 0 ∷ 0 ∷ 0 ∷ 0 ∷ 0 ∷ 0 ∷ 0 ∷ 1 ∷ n ∷ [])

-- A job that waits for its first claim.
abbrev pub waiting_job : JobRow
waiting_job = record leased_job {
  state = pending;
  attempt = 0;
  lease_token = none;
  worker_id = none;
  lease_expires_at_ms = none;
}

abbrev pub waiting_db : Db
waiting_db = record db { jobs = waiting_job ∷ [] }

abbrev pub patch : ProjectionPatch
patch = record {
  projection = utf8 "totals";
  expected_version = 1;
  new_version = 2;
  mutations = put (utf8 "eu:1") (5 ∷ []) ∷ delete (utf8 "us:1") ∷ [];
}

abbrev pub patched : Db
patched = record db {
  projection_meta = record { projection = utf8 "totals"; version = 2 } ∷ [];
  projection_entries = record entry { value = 5 ∷ [] } ∷ [];
}
