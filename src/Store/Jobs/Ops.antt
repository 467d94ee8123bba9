-- ===== src/Store/Jobs/Ops.antt =====
-- The job operations of a commit: `apply_enqueue` to `apply_resolve` of src/store/jobs.rs.
use minisqlite.Base.{
  ℕ, ◌+◌, ℤ, pos, Bytes, Option, none, some, Bool, leb, is_some, checked_add, utf8, if◌then◌else◌,
  Result, ok, ok_or, map_err, reject_if, guard, ◌>>=◌, ◌>>◌,
}
use minisqlite.Id.{Id128}
use minisqlite.Sql.{max_of}
use minisqlite.Errors.{Error, job_exists, cancel_needs_token, retry_overflow}
use minisqlite.Jobs.{
  JobSpec, JobAck, JobFailure, JobCancellation, JobResolution, Resolution, retry, mark_succeeded,
  mark_dead,
}
use minisqlite.Jobs.State.{pending, retry_wait, succeeded, dead, cancelled, is_pending}
use minisqlite.Store.Schema.{Db, JobRow}
use minisqlite.Store.Jobs.Table.{
  load_job, require_job, ensure_transition, ensure_lease_token, update_job, set_terminal,
  set_nonterminal, new_row, insert_job, insert_partition,
}

abbrev pub default_retry_delay_ms : ℤ
default_retry_delay_ms = pos 30_000

-- The error summaries that the code writes itself.
abbrev pub retry_exhausted : Bytes
retry_exhausted = utf8 "retry resolution exhausted max_attempts"

abbrev pub resolved_dead : Bytes
resolved_dead = utf8 "resolved as dead"

unfoldable pub next_sequence : Db → ℕ
next_sequence db = max_of (λ r. r.enqueue_sequence) db.jobs + 1

unfoldable pub apply_enqueue : Db → Id128 → JobSpec → Result Db Error
unfolding load_job next_sequence new_row insert_job insert_partition
apply_enqueue db transaction_id spec = do
  reject_if (is_some (load_job db spec.job_id)) (Error.validation (job_exists spec.job_id))
  db' ← map_err Error.storage (insert_job db (new_row transaction_id (next_sequence db) spec))
  ok (insert_partition spec.queue spec.partition_key (next_sequence db) db')

unfoldable pub apply_ack : Db → Id128 → ℤ → JobAck → Result Db Error
unfolding require_job ensure_transition ensure_lease_token set_terminal
apply_ack db transaction_id now_ms ack = do
  job ← require_job db ack.job_id
  ensure_transition job succeeded
  ensure_lease_token job ack.lease_token
  map_err Error.storage (set_terminal db job succeeded now_ms transaction_id ack.result_digest none)

abbrev pub is_exhausted : JobRow → Bool
is_exhausted job = leb job.max_attempts job.attempt

-- `failure.retry_after_ms`, or the default delay if it does not overflow.
unfoldable pub retry_time : ℤ → Option ℤ → Result ℤ Error
retry_time now_ms (some ms) = ok ms
retry_time now_ms none =
    ok_or (checked_add now_ms default_retry_delay_ms) (Error.validation retry_overflow)

-- The last statement of `apply_fail`.
unfoldable pub with_summary : Bytes → JobRow → JobRow
with_summary summary r = record r { error_summary = some summary }

unfoldable pub apply_fail : Db → Id128 → ℤ → JobFailure → Result Db Error
unfolding require_job ensure_transition ensure_lease_token set_terminal retry_time set_nonterminal
    with_summary
apply_fail db transaction_id now_ms failure = do
  job ← require_job db failure.job_id
  let to = if is_exhausted job then dead else retry_wait
  ensure_transition job to
  ensure_lease_token job failure.lease_token
  if is_exhausted job
      then map_err Error.storage
          (set_terminal db job dead now_ms transaction_id none (some failure.error_summary))
      else do
        retry_after ← retry_time now_ms failure.retry_after_ms
        db' ←
            map_err Error.storage
              (set_nonterminal db job.job_id retry_wait (some retry_after) transaction_id)
        map_err Error.storage (update_job job.job_id (with_summary failure.error_summary) db')

-- The token rule of `apply_cancel`.
unfoldable pub ensure_cancel_token : JobRow → Option Id128 → Result (Unit {0}) Error
unfolding ensure_lease_token
ensure_cancel_token job (some token) = ensure_lease_token job token
ensure_cancel_token job none =
    guard (is_pending job.state) (Error.validation (cancel_needs_token job.job_id))

unfoldable pub apply_cancel : Db → Id128 → ℤ → JobCancellation → Result Db Error
unfolding require_job ensure_transition ensure_cancel_token set_terminal
apply_cancel db transaction_id now_ms cancellation = do
  job ← require_job db cancellation.job_id
  ensure_transition job cancelled
  ensure_cancel_token job cancellation.lease_token
  map_err Error.storage (set_terminal db job cancelled now_ms transaction_id none none)

-- The arms of the `match` in `apply_resolve`.
unfoldable pub resolve : Db → Id128 → ℤ → JobRow → Resolution → Result Db Error
unfolding ensure_transition set_terminal set_nonterminal
resolve db transaction_id now_ms job retry =
    if is_exhausted job
    then (do
      ensure_transition job dead
      map_err Error.storage
          (set_terminal db job dead now_ms transaction_id none (some retry_exhausted)))
    else (do
      ensure_transition job pending
      map_err Error.storage (set_nonterminal db job.job_id pending none transaction_id))
resolve db transaction_id now_ms job mark_succeeded = do
  ensure_transition job succeeded
  map_err Error.storage (set_terminal db job succeeded now_ms transaction_id none none)
resolve db transaction_id now_ms job mark_dead = do
  ensure_transition job dead
  map_err Error.storage (set_terminal db job dead now_ms transaction_id none (some resolved_dead))

unfoldable pub apply_resolve : Db → Id128 → ℤ → JobResolution → Result Db Error
unfolding require_job resolve
apply_resolve db transaction_id now_ms resolution = do
  job ← require_job db resolution.job_id
  resolve db transaction_id now_ms job resolution.resolution
