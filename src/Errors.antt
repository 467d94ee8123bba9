-- ===== src/Errors.antt =====
-- src/error.rs: the typed errors. A message's text is a constructor with the values it prints.
use minisqlite.Base.{ℕ, ℤ, Bytes, List}
use minisqlite.Id.{Id128}
use minisqlite.Jobs.State.{JobState}

-- The fields whose sizes are limited, as the messages name them.
pub data Field : Type 0 where
  event_payload metadata projection_key projection_value job_payload error_summary : Field
  stream_id event_type projection queue partition_key idempotency_key : Field

pub data ValidationError : Type 0 where
  too_large : Field → ℕ → ℕ → ValidationError
  zero_operation_limit zero_replace_limit : ValidationError
  zero_transaction_id zero_event_id zero_job_id zero_max_attempts zero_lease_token : ValidationError
  too_many_operations : ℕ → ℕ → ValidationError
  too_many_replace_entries : ℕ → ℕ → ValidationError
  patch_version : Bytes → ℕ → ℕ → ValidationError
  duplicate_key replace_duplicate_key : Bytes → ValidationError
  job_missing job_exists stale_lease_token cancel_needs_token : Id128 → ValidationError
  retry_overflow lease_overflow empty_queue empty_worker bad_lease_ms : ValidationError
  stream_overflow : Bytes → ValidationError
  after_out_of_range limit_out_of_range : ℕ → ValidationError

-- The failures that SQLite reports here: a violated constraint, a failed COMMIT,
-- or a table that is not there.
pub data SqliteFailure : Type 0 where
  unique_violation check_violation foreign_key_violation commit_failed no_such_table : SqliteFailure

pub data StorageError : Type 0 where
  io : StorageError
  sqlite : SqliteFailure → StorageError
  migration_checksum_mismatch : ℕ → StorageError
  schema_too_new : ℕ → ℕ → StorageError
  schema_too_old : ℕ → ℕ → StorageError

pub data LeaseConflict : Type 0 where
  job_not_found invalid_token : Id128 → LeaseConflict
  not_leased : Id128 → JobState → LeaseConflict
  expiry_not_later expired : Id128 → ℤ → ℤ → LeaseConflict

pub data Conflict : Type 0 where
  stream_version projection_version : Bytes → ℕ → ℕ → Conflict
  job_transition : Id128 → JobState → JobState → Conflict
  lease : LeaseConflict → Conflict

pub data Error : Type 0 where
  storage : StorageError → Error
  validation : ValidationError → Error
  conflict : Conflict → Error

pub data CommitError : Type 0 where
  conflict : Conflict → CommitError
  validation : ValidationError → CommitError
  duplicate_id_with_different_content : CommitError
  indeterminate : Id128 → StorageError → CommitError
  storage : StorageError → CommitError

pub data ClaimError : Type 0 where
  indeterminate : Id128 → List Id128 → StorageError → ClaimError
  validation : ValidationError → ClaimError
  conflict : Conflict → ClaimError
  storage : StorageError → ClaimError

pub data LeaseError : Type 0 where
  conflict : LeaseConflict → LeaseError
  indeterminate : Id128 → StorageError → LeaseError
  storage : StorageError → LeaseError

pub data RecoveryError : Type 0 where
  storage : StorageError → RecoveryError

-- `From<Error> for CommitError`.
unfoldable pub error_to_commit : Error → CommitError
error_to_commit (Error.storage s) = CommitError.storage s
error_to_commit (Error.validation v) = CommitError.validation v
error_to_commit (Error.conflict c) = CommitError.conflict c

-- `error_to_claim` of src/store/jobs.rs.
unfoldable pub error_to_claim : Error → ClaimError
error_to_claim (Error.storage s) = ClaimError.storage s
error_to_claim (Error.validation v) = ClaimError.validation v
error_to_claim (Error.conflict c) = ClaimError.conflict c

-- The `map_err` around `apply_extend_lease` in src/store/commit.rs.
unfoldable pub lease_to_commit : LeaseError → CommitError
lease_to_commit (LeaseError.conflict c) = CommitError.conflict (lease c)
lease_to_commit (LeaseError.storage s) = CommitError.storage s
lease_to_commit (LeaseError.indeterminate i s) = CommitError.storage s
