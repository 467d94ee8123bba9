-- ===== src/Store/Commit/Validate.antt =====
-- `validate_batch` of src/store/commit.rs. `?` turns a `ValidationError` into a `CommitError`.
use minisqlite.Base.{
  Bytes, List, [], ◌∷◌, Option, none, some, length, ltb, ◌==◌, is_id, ok, reject_if, ◌>>◌,
}
use minisqlite.Id.{zero_id}
use minisqlite.Config.{
  Limits, Check, validate_metadata, validate_event, validate_projection_key,
  validate_projection_value, validate_job_payload, validate_string, validate_summary,
}
use minisqlite.Errors.{
  zero_transaction_id, zero_event_id, zero_job_id, zero_max_attempts, zero_lease_token,
  too_many_operations, too_many_replace_entries, stream_id, event_type, projection, queue,
  partition_key, idempotency_key,
}
use minisqlite.Projection.{
  ProjectionEntry, ProjectionMutation, put, delete, clear, replace, validate,
}
use minisqlite.Transaction.{
  Operation, append_event, projection_patch, enqueue_job, ack_job, fail_job, cancel_job,
  resolve_job, extend_lease, CommitBatch,
}

-- `for x in xs { check(x)?; }`.
unfoldable pub check_all {ℓ} : {A : Type ℓ} → (A → Check) → List A → Check
check_all check [] = ok tt
check_all check (x ∷ xs) = do check x; check_all check xs

unfoldable pub check_entry : Limits → ProjectionEntry → Check
check_entry l e = do
  validate_projection_key l (length e.key)
  validate_projection_value l (length e.value)

unfoldable pub check_mutation : Limits → ProjectionMutation → Check
unfolding check_all check_entry
check_mutation l (put key value) = do
  validate_projection_key l (length key)
  validate_projection_value l (length value)
check_mutation l (delete key) = validate_projection_key l (length key)
check_mutation l clear = ok tt
check_mutation l (replace entries) = do
  reject_if (ltb l.max_replace_entries (length entries))
      (too_many_replace_entries (length entries) l.max_replace_entries)
  check_all (check_entry l) entries

unfoldable pub check_key : Limits → Option Bytes → Check
check_key l none = ok tt
check_key l (some key) = validate_string l idempotency_key key

-- The arms of the `match operation`.
unfoldable pub check_operation : Limits → Operation → Check
unfolding check_all check_mutation check_key
check_operation l (append_event e) = do
  reject_if (e.event_id == zero_id) zero_event_id
  validate_string l stream_id e.stream_id
  validate_string l event_type e.event_type
  validate_event l (length e.payload) (length e.metadata)
check_operation l (projection_patch p) = do
  validate_string l projection p.projection
  validate p
  check_all (check_mutation l) p.mutations
check_operation l (enqueue_job j) = do
  reject_if (j.job_id == zero_id) zero_job_id
  reject_if (j.max_attempts == 0) zero_max_attempts
  validate_string l queue j.queue
  validate_string l partition_key j.partition_key
  validate_job_payload l (length j.payload)
  check_key l j.idempotency_key
check_operation l (ack_job a) = reject_if (a.lease_token == zero_id) zero_lease_token
check_operation l (fail_job f) = do
  reject_if (f.lease_token == zero_id) zero_lease_token
  validate_summary l f.error_summary
check_operation l (cancel_job c) = reject_if (is_id c.lease_token zero_id) zero_lease_token
check_operation l (resolve_job r) = ok tt
check_operation l (extend_lease e) = reject_if (e.lease_token == zero_id) zero_lease_token

unfoldable pub validate_batch : Limits → CommitBatch → Check
unfolding check_all check_operation
validate_batch l b = do
  reject_if (b.transaction_id == zero_id) zero_transaction_id
  reject_if (ltb l.max_operations_per_commit (length b.operations))
      (too_many_operations (length b.operations) l.max_operations_per_commit)
  validate_metadata l (length b.metadata)
  check_all (λ e. validate_string l stream_id e.stream_id) b.expected_stream_versions
  check_all (check_operation l) b.operations
