-- ===== src/Store/Ops/Export.antt =====
-- `diagnostic_export` of src/store/ops.rs: JSON Lines.
use minisqlite.Base.{
  pos, ℕ, ◌+◌, Bytes, bytes_lt, bytes_le, utf8, List, [], ◌∷◌, ◌++◌, concat, map, Option, none,
  some, Bool, ◌||◌, ◌&&◌, bytes_eq, Result, ok, ◌>>=◌,
}
use minisqlite.Id.{to_hex, hex_bytes}
use minisqlite.Config.{encode_mode}
use minisqlite.Sql.{order_by}
use minisqlite.Errors.{Error, StorageError}
use minisqlite.Event.{PersistedEvent}
use minisqlite.Jobs.State.{encode}
use minisqlite.Store.Schema.{
  Db, TransactionRow, StreamRow, MetaRow, EntryRow, JobRow, PartitionRow, ReceiptRow,
}
use minisqlite.Store.Claims.Run.{decimal}
use minisqlite.Store.Migrations.{File}
use minisqlite.Store.Ops.Text.{
  number, json_escape, opt_i64, opt_string, payload_fields, error_summary_fields, value_fields,
  state_name,
}
use minisqlite.Store.Ops.Stats.{StoreStats, stats}
use minisqlite.Store.Ops.Paging.{line, bool_text, export_table, after_sequence, by_key}

unfoldable pub transaction_line : TransactionRow → Bytes
unfolding line number decimal to_hex
transaction_line t = line (
    utf8 "{\"kind\":\"transaction\",\"transaction_sequence\":"
    ∷ number t.transaction_sequence
    ∷ utf8 ",\"transaction_id\":\""
    ∷ to_hex t.transaction_id
    ∷ utf8 "\",\"committed_at_ms\":"
    ∷ decimal t.committed_at_ms
    ∷ utf8 ",\"operation_count\":"
    ∷ number t.operation_count
    ∷ utf8 "}"
    ∷ [])

unfoldable pub export_transactions : Db → Bytes
unfolding export_table transaction_line
export_transactions db =
    export_table (after_sequence (λ t. t.transaction_sequence))
      (by_key (λ t. t.transaction_sequence)) transaction_line db.transactions

unfoldable pub event_line : Bool → PersistedEvent → Bytes
unfolding line number decimal to_hex json_escape payload_fields
event_line include_payloads e = line (
    utf8 "{\"kind\":\"event\",\"global_sequence\":"
    ∷ number e.global_sequence
    ∷ utf8 ",\"event_id\":\""
    ∷ to_hex e.event.event_id
    ∷ utf8 "\",\"transaction_id\":\""
    ∷ to_hex e.transaction_id
    ∷ utf8 "\",\"stream_id\":\""
    ∷ json_escape e.event.stream_id
    ∷ utf8 "\",\"stream_version\":"
    ∷ number e.stream_version
    ∷ utf8 ",\"event_type\":\""
    ∷ json_escape e.event.event_type
    ∷ utf8 "\",\"schema_version\":"
    ∷ number e.event.schema_version
    ∷ utf8 ",\"occurred_at_ms\":"
    ∷ decimal e.event.occurred_at_ms
    ∷ utf8 ","
    ∷ payload_fields e.event.payload include_payloads
    ∷ utf8 "}"
    ∷ [])

unfoldable pub export_events : Db → Bool → Bytes
unfolding export_table event_line
export_events db include_payloads =
    export_table (after_sequence (λ e. e.global_sequence)) (by_key (λ e. e.global_sequence))
      (event_line include_payloads) db.events

-- `WHERE stream_id > ?1`, from the empty text on.
abbrev pub after_stream : Option StreamRow → StreamRow → Bool
after_stream none s = bytes_lt [] s.stream_id
after_stream (some l) s = bytes_lt l.stream_id s.stream_id

unfoldable pub stream_line : StreamRow → Bytes
unfolding line number json_escape
stream_line s = line (
    utf8 "{\"kind\":\"stream\",\"stream_id\":\""
    ∷ json_escape s.stream_id
    ∷ utf8 "\",\"current_version\":"
    ∷ number s.current_version
    ∷ utf8 "}"
    ∷ [])

unfoldable pub export_streams : Db → Bytes
unfolding export_table stream_line
export_streams db =
    export_table after_stream (λ a b. bytes_le a.stream_id b.stream_id) stream_line db.streams

unfoldable pub projection_line : MetaRow → Bytes
unfolding line number json_escape
projection_line m = line (
    utf8 "{\"kind\":\"projection\",\"projection\":\""
    ∷ json_escape m.projection
    ∷ utf8 "\",\"version\":"
    ∷ number m.version
    ∷ utf8 "}"
    ∷ [])

-- The rows of a table with their rowids, which grow in the order of insertion.
unfoldable pub numbered {ℓ} : {A : Type ℓ} → ℕ → List A → List (ℕ × A)
numbered n [] = []
numbered n (x ∷ xs) = (n, x) ∷ numbered (n + 1) xs

unfoldable pub entry_line : Bool → ℕ × EntryRow → Bytes
unfolding line json_escape hex_bytes value_fields
entry_line include_payloads (rowid, e) = line (
    utf8 "{\"kind\":\"projection_entry\",\"projection\":\""
    ∷ json_escape e.projection
    ∷ utf8 "\",\"key_hex\":\""
    ∷ hex_bytes e.key
    ∷ utf8 "\","
    ∷ value_fields e.value include_payloads
    ∷ utf8 "}"
    ∷ [])

unfoldable pub export_projections : Db → Bool → Bytes
unfolding projection_line numbered export_table entry_line concat
export_projections db include_payloads =
    concat (
      map projection_line (order_by (λ a b. bytes_le a.projection b.projection) db.projection_meta))
    ++ export_table (after_sequence (λ r. r.0)) (by_key (λ r. r.0)) (entry_line include_payloads)
        (numbered 1 db.projection_entries)

unfoldable pub job_line : Bool → JobRow → Bytes
unfolding line number decimal to_hex json_escape state_name opt_string opt_i64 error_summary_fields
    payload_fields
job_line include_payloads r = line (
    utf8 "{\"kind\":\"job\",\"enqueue_sequence\":"
    ∷ number r.enqueue_sequence
    ∷ utf8 ",\"job_id\":\""
    ∷ to_hex r.job_id
    ∷ utf8 "\",\"queue\":\""
    ∷ json_escape r.queue
    ∷ utf8 "\",\"partition_key\":\""
    ∷ json_escape r.partition_key
    ∷ utf8 "\",\"state\":\""
    ∷ state_name (pos (encode r.state))
    ∷ utf8 "\",\"attempt\":"
    ∷ number r.attempt
    ∷ utf8 ",\"max_attempts\":"
    ∷ number r.max_attempts
    ∷ utf8 ",\"effect_mode\":"
    ∷ number (encode_mode r.effect_mode)
    ∷ utf8 ",\"not_before_ms\":"
    ∷ decimal r.not_before_ms
    ∷ utf8 ",\"worker_id\":"
    ∷ opt_string r.worker_id
    ∷ utf8 ",\"lease_expires_at_ms\":"
    ∷ opt_i64 r.lease_expires_at_ms
    ∷ utf8 ",\"retry_after_ms\":"
    ∷ opt_i64 r.retry_after_ms
    ∷ utf8 ",\"terminal_at_ms\":"
    ∷ opt_i64 r.terminal_at_ms
    ∷ utf8 ","
    ∷ error_summary_fields r.error_summary include_payloads
    ∷ utf8 ","
    ∷ payload_fields r.payload include_payloads
    ∷ utf8 "}"
    ∷ [])

unfoldable pub export_jobs : Db → Bool → Bytes
unfolding export_table job_line
export_jobs db include_payloads =
    export_table (after_sequence (λ r. r.enqueue_sequence)) (by_key (λ r. r.enqueue_sequence))
      (job_line include_payloads) db.jobs

unfoldable pub partition_line : PartitionRow → Bytes
unfolding line number json_escape
partition_line p = line (
    utf8 "{\"kind\":\"active_partition\",\"queue\":\""
    ∷ json_escape p.queue
    ∷ utf8 "\",\"partition_key\":\""
    ∷ json_escape p.partition_key
    ∷ utf8 "\",\"first_active_sequence\":"
    ∷ number p.first_active_sequence
    ∷ utf8 "}"
    ∷ [])

-- `ORDER BY queue, partition_key`.
abbrev pub by_partition : PartitionRow → PartitionRow → Bool
by_partition a b =
    bytes_lt a.queue b.queue
    || (bytes_eq a.queue b.queue && bytes_le a.partition_key b.partition_key)

unfoldable pub export_partitions : Db → Bytes
unfolding partition_line concat
export_partitions db = concat (map partition_line (order_by by_partition db.active_partitions))

unfoldable pub receipt_line : ReceiptRow → Bytes
unfolding line number decimal to_hex json_escape
receipt_line c = line (
    utf8 "{\"kind\":\"claim_receipt\",\"transaction_id\":\""
    ∷ to_hex c.transaction_id
    ∷ utf8 "\",\"job_id\":\""
    ∷ to_hex c.job_id
    ∷ utf8 "\",\"attempt\":"
    ∷ number c.attempt
    ∷ utf8 ",\"worker_id\":\""
    ∷ json_escape c.worker_id
    ∷ utf8 "\",\"lease_expires_at_ms\":"
    ∷ decimal c.lease_expires_at_ms
    ∷ utf8 "}"
    ∷ [])

unfoldable pub export_claim_receipts : Db → Bytes
unfolding receipt_line concat
export_claim_receipts db = concat (map receipt_line db.claim_receipts)

unfoldable pub header_line : StoreStats → Bool → Bytes
unfolding line number
header_line s include_payloads = line (
    utf8 "{\"kind\":\"header\",\"format\":\"minisqlite-diagnostic-v1\",\"restorable\":false,"
    ∷ utf8 "\"schema_version\":"
    ∷ number s.migration_version
    ∷ utf8 ",\"payloads_included\":"
    ∷ bool_text include_payloads
    ∷ utf8 "}"
    ∷ [])

-- The counts of `states`, with commas between them.
unfoldable pub state_counts : List (Bytes × ℕ) → Bytes
unfolding json_escape number concat
state_counts [] = []
state_counts ((state, n) ∷ []) = concat (utf8 "\"" ∷ json_escape state ∷ utf8 "\":" ∷ number n ∷ [])
state_counts ((state, n) ∷ c ∷ cs) =
    concat (
      utf8 "\"" ∷ json_escape state ∷ utf8 "\":" ∷ number n ∷ utf8 "," ∷ state_counts (c ∷ cs) ∷ [])

unfoldable pub stats_line : StoreStats → Bytes
unfolding line number state_counts
stats_line s = line (
    utf8 "{\"kind\":\"stats\",\"transactions\":"
    ∷ number s.transactions
    ∷ utf8 ",\"events\":"
    ∷ number s.events
    ∷ utf8 ",\"streams\":"
    ∷ number s.streams
    ∷ utf8 ",\"projections\":"
    ∷ number s.projections
    ∷ utf8 ",\"projection_entries\":"
    ∷ number s.projection_entries
    ∷ utf8 ",\"active_partitions\":"
    ∷ number s.active_partitions
    ∷ utf8 ",\"file_size_bytes\":"
    ∷ number s.file_size_bytes
    ∷ utf8 ",\"jobs_by_state\":{"
    ∷ state_counts s.jobs_by_state
    ∷ utf8 "}}"
    ∷ [])

unfoldable pub export_rows : Db → Bool → Bytes
unfolding export_transactions export_events export_streams export_projections export_jobs
    export_partitions export_claim_receipts
export_rows db include_payloads =
    export_transactions db
    ++ (export_events db include_payloads
        ++ (export_streams db
            ++ (export_projections db include_payloads
                ++ (export_jobs db include_payloads
                    ++ (export_partitions db ++ export_claim_receipts db)))))

unfoldable pub diagnostic_export : Result ℕ StorageError → File Db → Bool → Result Bytes Error
unfolding stats header_line stats_line export_rows
diagnostic_export file_size file include_payloads = stats file_size file >>= λ s.
    ok
      (header_line s include_payloads ++ (stats_line s ++ export_rows file.schema include_payloads))
