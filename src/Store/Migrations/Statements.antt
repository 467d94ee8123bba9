-- ===== src/Store/Migrations/Statements.antt =====
-- `MIGRATIONS` of src/store/migrations.rs: the SQL text of each schema version.
use minisqlite.Base.{Bytes, utf8, List, [], ◌∷◌, concat}
use minisqlite.Store.Migrations.{Migration}

unfoldable pub sql_1 : List Bytes
sql_1 =
    utf8
      "CREATE TABLE transactions (transaction_id BLOB PRIMARY KEY, transaction_sequence INTEGER NOT NULL UNIQUE, committed_at_ms INTEGER NOT NULL, correlation_id BLOB, metadata BLOB NOT NULL, request_digest BLOB NOT NULL, operation_count INTEGER NOT NULL);\n"
    ∷ utf8
        "CREATE TABLE events (global_sequence INTEGER PRIMARY KEY AUTOINCREMENT, event_id BLOB NOT NULL UNIQUE, transaction_id BLOB NOT NULL REFERENCES transactions(transaction_id), stream_id TEXT NOT NULL, stream_version INTEGER NOT NULL, event_type TEXT NOT NULL, schema_version INTEGER NOT NULL, occurred_at_ms INTEGER NOT NULL, causation_id BLOB, correlation_id BLOB, payload BLOB NOT NULL, metadata BLOB NOT NULL, UNIQUE(stream_id, stream_version));\n"
    ∷ utf8 "CREATE INDEX events_stream_idx ON events(stream_id, stream_version);\n"
    ∷ utf8 "CREATE INDEX events_transaction_idx ON events(transaction_id);\n"
    ∷ utf8 "CREATE TABLE streams (stream_id TEXT PRIMARY KEY, current_version INTEGER NOT NULL);\n"
    ∷ utf8 "CREATE TABLE projection_meta (projection TEXT PRIMARY KEY, version INTEGER NOT NULL);\n"
    ∷ utf8
        "CREATE TABLE projection_entries (projection TEXT NOT NULL REFERENCES projection_meta(projection) ON DELETE CASCADE, key BLOB NOT NULL, value BLOB NOT NULL, PRIMARY KEY(projection, key));\n"
    ∷ utf8
        "CREATE TABLE jobs (job_id BLOB PRIMARY KEY, enqueue_sequence INTEGER NOT NULL UNIQUE, enqueue_transaction_id BLOB NOT NULL REFERENCES transactions(transaction_id), queue TEXT NOT NULL, partition_key TEXT NOT NULL, payload BLOB NOT NULL, not_before_ms INTEGER NOT NULL, max_attempts INTEGER NOT NULL, effect_mode INTEGER NOT NULL, idempotency_key TEXT, state INTEGER NOT NULL, attempt INTEGER NOT NULL, lease_token BLOB, worker_id TEXT, lease_expires_at_ms INTEGER, retry_after_ms INTEGER, terminal_at_ms INTEGER, result_digest BLOB, error_summary TEXT, updated_transaction_id BLOB NOT NULL);\n"
    ∷ utf8
        "CREATE INDEX jobs_ready_idx ON jobs(queue, partition_key, state, not_before_ms, enqueue_sequence);\n"
    ∷ utf8 "CREATE INDEX jobs_expiry_idx ON jobs(state, lease_expires_at_ms);\n"
    ∷ utf8 "CREATE INDEX jobs_queue_state_idx ON jobs(queue, state);\n"
    ∷ utf8 "CREATE INDEX jobs_transaction_idx ON jobs(updated_transaction_id);\n"
    ∷ utf8 "CREATE TABLE queue_cursors (queue TEXT PRIMARY KEY, last_partition_key TEXT);\n"
    ∷ utf8
        "CREATE TABLE active_partitions (queue TEXT NOT NULL, partition_key TEXT NOT NULL, first_active_sequence INTEGER NOT NULL, PRIMARY KEY(queue, partition_key));\n"
    ∷ utf8
        "CREATE TABLE claim_receipts (transaction_id BLOB NOT NULL REFERENCES transactions(transaction_id), job_id BLOB NOT NULL, lease_token BLOB NOT NULL, attempt INTEGER NOT NULL, worker_id TEXT NOT NULL, lease_expires_at_ms INTEGER NOT NULL, PRIMARY KEY(transaction_id, job_id));\n"
    ∷ []

unfoldable pub sql_2 : List Bytes
sql_2 =
    utf8
      "CREATE TABLE jobs_v2 (job_id BLOB PRIMARY KEY, enqueue_sequence INTEGER NOT NULL UNIQUE, enqueue_transaction_id BLOB NOT NULL REFERENCES transactions(transaction_id), queue TEXT NOT NULL, partition_key TEXT NOT NULL, payload BLOB NOT NULL, not_before_ms INTEGER NOT NULL, max_attempts INTEGER NOT NULL CHECK (max_attempts > 0), effect_mode INTEGER NOT NULL, idempotency_key TEXT, state INTEGER NOT NULL CHECK (state BETWEEN 0 AND 6), attempt INTEGER NOT NULL CHECK (attempt >= 0), lease_token BLOB, worker_id TEXT, lease_expires_at_ms INTEGER, retry_after_ms INTEGER, terminal_at_ms INTEGER, result_digest BLOB, error_summary TEXT, updated_transaction_id BLOB NOT NULL, CHECK (state <> 1 OR (lease_token IS NOT NULL AND worker_id IS NOT NULL AND lease_expires_at_ms IS NOT NULL)), CHECK (state = 1 OR (lease_token IS NULL AND worker_id IS NULL AND lease_expires_at_ms IS NULL)), CHECK (state <> 2 OR retry_after_ms IS NOT NULL), CHECK ((state IN (4, 5, 6)) = (terminal_at_ms IS NOT NULL)));\n"
    ∷ utf8 "INSERT INTO jobs_v2 SELECT * FROM jobs;\n"
    ∷ utf8 "DROP TABLE jobs;\n"
    ∷ utf8 "ALTER TABLE jobs_v2 RENAME TO jobs;\n"
    ∷ utf8
        "CREATE INDEX jobs_ready_idx ON jobs(queue, partition_key, state, not_before_ms, enqueue_sequence);\n"
    ∷ utf8 "CREATE INDEX jobs_expiry_idx ON jobs(state, lease_expires_at_ms);\n"
    ∷ utf8 "CREATE INDEX jobs_queue_state_idx ON jobs(queue, state);\n"
    ∷ utf8 "CREATE INDEX jobs_transaction_idx ON jobs(updated_transaction_id);\n"
    ∷ []

unfoldable pub migrations : List Migration
unfolding concat sql_1 sql_2
migrations =
    record { version = 1; sql = concat sql_1 } ∷ record { version = 2; sql = concat sql_2 } ∷ []
