-- ===== src/Transaction/Canonical.antt =====
-- `digest_operation` and `request_digest` of src/transaction.rs: the bytes in the order written.
use minisqlite.Base.{ℕ, Bytes, List, [], ◌∷◌, ◌++◌, length}
use minisqlite.Config.{encode_mode}
use minisqlite.Event.{Event}
use minisqlite.Projection.{
  ProjectionEntry, ProjectionMutation, ProjectionPatch, put, delete, clear, replace,
}
use minisqlite.Jobs.{
  JobSpec, JobAck, JobFailure, JobCancellation, JobResolution, LeaseExtension, Resolution, retry,
  mark_succeeded, mark_dead,
}
use minisqlite.Transaction.{
  Operation, append_event, projection_patch, enqueue_job, ack_job, fail_job, cancel_job,
  resolve_job, extend_lease, ExpectedStreamVersion, CommitBatch,
}
use minisqlite.Transaction.Writer.{
  write_u8, write_u64, write_i64, write_bytes, write_str, write_id, write_opt_id, write_opt_bytes,
  write_opt_i64,
}

-- `for x in xs { write(x) }`.
unfoldable pub write_all {ℓ} : {A : Type ℓ} → (A → Bytes) → List A → Bytes
write_all w [] = []
write_all w (x ∷ xs) = w x ++ write_all w xs

-- The length prefix, then the elements.
unfoldable pub write_list {ℓ} : {A : Type ℓ} → (A → Bytes) → List A → Bytes
unfolding write_all
write_list w xs = write_u64 (length xs) ++ write_all w xs

unfoldable pub write_entry : ProjectionEntry → Bytes
write_entry e = write_bytes e.key ++ write_bytes e.value

unfoldable pub write_mutation : ProjectionMutation → Bytes
unfolding write_entry
write_mutation (put key value) = write_u8 1 ++ (write_bytes key ++ write_bytes value)
write_mutation (delete key) = write_u8 2 ++ write_bytes key
write_mutation clear = write_u8 3
write_mutation (replace entries) = write_u8 4 ++ write_list write_entry entries

unfoldable pub write_event : Event → Bytes
write_event e =
    write_id e.event_id
    ++ (write_str e.stream_id
        ++ (write_str e.event_type
            ++ (write_u64 e.schema_version
                ++ (write_i64 e.occurred_at_ms
                    ++ (write_opt_id e.causation_id
                        ++ (write_opt_id e.correlation_id
                            ++ (write_bytes e.payload ++ write_bytes e.metadata)))))))

unfoldable pub write_patch : ProjectionPatch → Bytes
unfolding write_mutation
write_patch p =
    write_str p.projection
    ++ (write_u64 p.expected_version
        ++ (write_u64 p.new_version ++ write_list write_mutation p.mutations))

unfoldable pub write_spec : JobSpec → Bytes
write_spec j =
    write_id j.job_id
    ++ (write_str j.queue
        ++ (write_str j.partition_key
            ++ (write_bytes j.payload
                ++ (write_i64 j.not_before_ms
                    ++ (write_u64 j.max_attempts
                        ++ (write_u8 (encode_mode j.effect_mode)
                            ++ write_opt_bytes j.idempotency_key))))))

unfoldable pub write_ack : JobAck → Bytes
write_ack a = write_id a.job_id ++ (write_id a.lease_token ++ write_opt_bytes a.result_digest)

unfoldable pub write_failure : JobFailure → Bytes
write_failure f =
    write_id f.job_id
    ++ (write_id f.lease_token ++ (write_str f.error_summary ++ write_opt_i64 f.retry_after_ms))

unfoldable pub write_cancellation : JobCancellation → Bytes
write_cancellation c = write_id c.job_id ++ write_opt_id c.lease_token

unfoldable pub resolution_code : Resolution → ℕ
resolution_code retry = 1
resolution_code mark_succeeded = 2
resolution_code mark_dead = 3

unfoldable pub write_resolution : JobResolution → Bytes
unfolding resolution_code
write_resolution r = write_id r.job_id ++ write_u8 (resolution_code r.resolution)

unfoldable pub write_extension : LeaseExtension → Bytes
write_extension e = write_id e.job_id ++ (write_id e.lease_token ++ write_i64 e.new_expiry_ms)

-- `digest_operation`.
unfoldable pub write_operation : Operation → Bytes
write_operation (append_event e) = write_u8 1 ++ write_event e
write_operation (projection_patch p) = write_u8 2 ++ write_patch p
write_operation (enqueue_job j) = write_u8 3 ++ write_spec j
write_operation (ack_job a) = write_u8 4 ++ write_ack a
write_operation (fail_job f) = write_u8 5 ++ write_failure f
write_operation (cancel_job c) = write_u8 6 ++ write_cancellation c
write_operation (resolve_job r) = write_u8 7 ++ write_resolution r
write_operation (extend_lease e) = write_u8 8 ++ write_extension e

unfoldable pub write_expected : ExpectedStreamVersion → Bytes
write_expected e = write_str e.stream_id ++ write_u64 e.version

-- The input of the hash in `request_digest`.
unfoldable pub canonical : CommitBatch → Bytes
unfolding write_operation write_expected
canonical b =
    write_i64 b.committed_at_ms
    ++ (write_opt_id b.correlation_id
        ++ (write_bytes b.metadata
            ++ (write_list write_expected b.expected_stream_versions
                ++ write_list write_operation b.operations)))
