-- ===== src/Store/Jobs/Table.antt =====
-- The statements of src/store/jobs.rs on the `jobs` and `active_partitions` tables.
use minisqlite.Base.{
  ℕ, ℤ, Bytes, bytes_eq, [], ◌∷◌, ◌++◌, Option, none, some, Bool, not, ◌&&◌, ◌==◌, is_id, or_else,
  if◌then◌else◌, Result, ok, err, ok_or, reject_if, guard, ◌>>=◌, ◌>>◌,
}
use minisqlite.Id.{Id128}
use minisqlite.Sql.{select, find_row, exists_row, all_rows, update, delete}
use minisqlite.Errors.{
  Error, StorageError, sqlite, unique_violation, check_violation, foreign_key_violation,
  job_missing, stale_lease_token, job_transition,
}
use minisqlite.Jobs.{JobSpec}
use minisqlite.Jobs.State.{JobState, pending, is_active, can_transition_to}
use minisqlite.Store.Schema.{Db, JobRow, PartitionRow, TransactionRow, check_row}

abbrev pub has_job_id : Id128 → JobRow → Bool
has_job_id job_id r = r.job_id == job_id

-- `queue = ?1 AND partition_key = ?2`.
abbrev pub in_partition : Bytes → Bytes → JobRow → Bool
in_partition q p r = bytes_eq r.queue q && bytes_eq r.partition_key p

-- `... AND state IN (ACTIVE_STATES_SQL)`.
abbrev pub active_in : Bytes → Bytes → JobRow → Bool
active_in q p r = is_active r.state && in_partition q p r

abbrev pub is_partition : Bytes → Bytes → PartitionRow → Bool
is_partition q p a = bytes_eq a.queue q && bytes_eq a.partition_key p

unfoldable pub load_job : Db → Id128 → Option JobRow
load_job db job_id = find_row (has_job_id job_id) db.jobs

unfoldable pub require_job : Db → Id128 → Result JobRow Error
unfolding load_job
require_job db job_id = ok_or (load_job db job_id) (Error.validation (job_missing job_id))

unfoldable pub ensure_transition : JobRow → JobState → Result (Unit {0}) Error
ensure_transition job to =
    guard (can_transition_to job.state to) (Error.conflict (job_transition job.job_id job.state to))

unfoldable pub ensure_lease_token : JobRow → Id128 → Result (Unit {0}) Error
ensure_lease_token job token =
    guard (is_id job.lease_token token) (Error.validation (stale_lease_token job.job_id))

-- `UPDATE jobs SET f WHERE job_id = ?1`: the rows written must meet the CHECK constraints.
unfoldable pub update_job : Id128 → (JobRow → JobRow) → Db → Result Db StorageError
update_job job_id f db =
    if all_rows (λ r. check_row (f r)) (select (has_job_id job_id) db.jobs)
    then ok (record db { jobs = update (has_job_id job_id) f db.jobs })
    else err (sqlite check_violation)

unfoldable pub drain_partition_if_empty : Bytes → Bytes → Db → Db
drain_partition_if_empty q p db = record db {
  active_partitions =
      delete (λ a. is_partition q p a && not (exists_row (active_in q p) db.jobs))
        db.active_partitions;
}

-- The assignments of `set_terminal`.
unfoldable pub to_terminal : JobState → ℤ → Id128 → Option Bytes → Option Bytes → JobRow → JobRow
to_terminal state now_ms transaction_id digest summary r = record r {
  state = state;
  lease_token = none;
  worker_id = none;
  lease_expires_at_ms = none;
  retry_after_ms = none;
  terminal_at_ms = some now_ms;
  result_digest = or_else digest r.result_digest;
  error_summary = or_else summary r.error_summary;
  updated_transaction_id = transaction_id;
}

unfoldable pub set_terminal :
    Db → JobRow → JobState → ℤ → Id128 → Option Bytes → Option Bytes → Result Db StorageError
unfolding to_terminal update_job drain_partition_if_empty
set_terminal db job state now_ms transaction_id digest summary = do
  db' ← update_job job.job_id (to_terminal state now_ms transaction_id digest summary) db
  ok (drain_partition_if_empty job.queue job.partition_key db')

-- The assignments of `set_nonterminal`.
unfoldable pub to_nonterminal : JobState → Option ℤ → Id128 → JobRow → JobRow
to_nonterminal state retry_after_ms transaction_id r = record r {
  state = state;
  lease_token = none;
  worker_id = none;
  lease_expires_at_ms = none;
  retry_after_ms = retry_after_ms;
  updated_transaction_id = transaction_id;
}

unfoldable pub set_nonterminal : Db → Id128 → JobState → Option ℤ → Id128 → Result Db StorageError
unfolding to_nonterminal update_job
set_nonterminal db job_id state retry_after_ms transaction_id =
    update_job job_id (to_nonterminal state retry_after_ms transaction_id) db

abbrev pub has_transaction_id : Id128 → TransactionRow → Bool
has_transaction_id t r = r.transaction_id == t

-- The row that `apply_enqueue` inserts.
unfoldable pub new_row : Id128 → ℕ → JobSpec → JobRow
new_row transaction_id sequence spec = record {
  job_id = spec.job_id;
  enqueue_sequence = sequence;
  enqueue_transaction_id = transaction_id;
  queue = spec.queue;
  partition_key = spec.partition_key;
  payload = spec.payload;
  not_before_ms = spec.not_before_ms;
  max_attempts = spec.max_attempts;
  effect_mode = spec.effect_mode;
  idempotency_key = spec.idempotency_key;
  state = pending;
  attempt = 0;
  lease_token = none;
  worker_id = none;
  lease_expires_at_ms = none;
  retry_after_ms = none;
  terminal_at_ms = none;
  result_digest = none;
  error_summary = none;
  updated_transaction_id = transaction_id;
}

-- `INSERT INTO jobs`: its keys are unique, its transaction exists and the CHECK constraints hold.
unfoldable pub insert_job : Db → JobRow → Result Db StorageError
insert_job db r = do
  reject_if (exists_row (has_job_id r.job_id) db.jobs) (sqlite unique_violation)
  reject_if (exists_row (λ s. s.enqueue_sequence == r.enqueue_sequence) db.jobs)
      (sqlite unique_violation)
  guard (exists_row (has_transaction_id r.enqueue_transaction_id) db.transactions)
      (sqlite foreign_key_violation)
  guard (check_row r) (sqlite check_violation)
  ok (record db { jobs = db.jobs ++ r ∷ [] })

-- `INSERT OR IGNORE INTO active_partitions`.
unfoldable pub insert_partition : Bytes → Bytes → ℕ → Db → Db
insert_partition q p sequence db =
    if exists_row (is_partition q p) db.active_partitions then db else record db {
      active_partitions =
          db.active_partitions
          ++ record { queue = q; partition_key = p; first_active_sequence = sequence } ∷ [];
    }
