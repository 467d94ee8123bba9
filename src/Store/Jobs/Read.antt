-- ===== src/Store/Jobs/Read.antt =====
-- `get_job`, `list_jobs` and `list_jobs_page` of src/store/jobs.rs.
use minisqlite.Base.{
  ℕ, ◌^◌, pos, Bytes, bytes_eq, List, [], ◌∷◌, map, Option, none, some, Bool, true, ltb, leb, ◌==◌,
  ◌&&◌, as_i64, Result, ok, reject_if, ◌>>◌,
}
use minisqlite.Id.{Id128}
use minisqlite.Sql.{select, order_by, limit_rows}
use minisqlite.Errors.{Error, after_out_of_range, limit_out_of_range}
use minisqlite.Jobs.{JobInfo}
use minisqlite.Jobs.State.{JobState, encode}
use minisqlite.Store.Schema.{Db, JobRow}
use minisqlite.Store.Jobs.Table.{load_job}
use mathlib.Core.Option

-- `JobRow::into_info`.
unfoldable pub into_info : JobRow → JobInfo
into_info r = record {
  job_id = r.job_id;
  spec = record {
    job_id = r.job_id;
    queue = r.queue;
    partition_key = r.partition_key;
    payload = r.payload;
    not_before_ms = r.not_before_ms;
    max_attempts = r.max_attempts;
    effect_mode = r.effect_mode;
    idempotency_key = r.idempotency_key;
  };
  state = r.state;
  attempt = r.attempt;
  lease_expires_at_ms = r.lease_expires_at_ms;
  worker_id = r.worker_id;
  retry_after_ms = r.retry_after_ms;
  terminal_at_ms = r.terminal_at_ms;
  result_digest = r.result_digest;
  error_summary = r.error_summary;
}

unfoldable pub get_job : Db → Id128 → Option JobInfo
unfolding load_job into_info
get_job db job_id = Option.map into_info (load_job db job_id)

-- `?1 IS NULL OR queue = ?1`, and the same of the state.
abbrev pub queue_matches : Option Bytes → JobRow → Bool
queue_matches none r = true
queue_matches (some q) r = bytes_eq r.queue q

abbrev pub state_matches : Option JobState → JobRow → Bool
state_matches none r = true
state_matches (some s) r = encode r.state == encode s

abbrev pub by_sequence : JobRow → JobRow → Bool
by_sequence r s = leb r.enqueue_sequence s.enqueue_sequence

unfoldable pub list_jobs : Db → Option Bytes → Option JobState → ℕ → List JobInfo
list_jobs db queue state limit = map into_info (
    limit_rows (as_i64 limit)
      (order_by by_sequence (select (λ r. queue_matches queue r && state_matches state r) db.jobs)))

-- The cursor after the rows of a page: the sequence of the last, or the old cursor.
unfoldable pub last_sequence : ℕ → List JobRow → ℕ
last_sequence after [] = after
last_sequence after (r ∷ rs) = last_sequence r.enqueue_sequence rs

unfoldable pub page_rows : Db → Option Bytes → Option JobState → ℕ → ℕ → List JobRow
page_rows db queue state after limit = limit_rows (pos limit) (
    order_by by_sequence (
      select (λ r. ltb after r.enqueue_sequence && (queue_matches queue r && state_matches state r))
        db.jobs))

unfoldable pub list_jobs_page :
    Db → Option Bytes → Option JobState → ℕ → ℕ → Result (List JobInfo × ℕ) Error
unfolding page_rows last_sequence into_info
list_jobs_page db queue state after limit = do
  reject_if (leb (2 ^ 63) after) (Error.validation (after_out_of_range after))
  reject_if (leb (2 ^ 63) limit) (Error.validation (limit_out_of_range limit))
  let rows = page_rows db queue state after limit
  ok (map into_info rows, last_sequence after rows)
