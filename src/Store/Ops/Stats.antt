-- ===== src/Store/Ops/Stats.antt =====
-- `stats` of src/store/ops.rs. The size of the file is an argument.
use minisqlite.Base.{
  pos, ℕ, ℤ, Bytes, bytes_le, List, [], ◌∷◌, ◌++◌, map, length, Option, none, some, Bool, ◌==◌,
  leb_ℤ, ◌^◌, ◌%◌, Result, ok, ok_or, map_err, ◌>>=◌, if◌then◌else◌,
}
use minisqlite.Sql.{select, order_by, max_of}
use minisqlite.Errors.{Error, StorageError, sqlite, no_such_table}
use minisqlite.Jobs.State.{
  JobState, encode, pending, leased, retry_wait, uncertain, succeeded, dead, cancelled,
}
use minisqlite.Store.Schema.{Db, JobRow}
use minisqlite.Store.Migrations.{File}
use minisqlite.Store.Ops.Text.{state_name}

pub record StoreStats : Type 0 where
  pub transactions : ℕ
  pub events : ℕ
  pub streams : ℕ
  pub projections : ℕ
  pub projection_entries : ℕ
  pub jobs_by_state : List (Bytes × ℕ)
  pub active_partitions : ℕ
  pub file_size_bytes : ℕ
  pub migration_version : ℕ
  pub oldest_active_lease_ms : Option ℤ
  pub oldest_uncertain_job_ms : Option ℤ

-- `MIN` skips the rows without a value, and is NULL without any.
abbrev pub smaller : ℤ → Option ℤ → Option ℤ
smaller x none = some x
smaller x (some y) = if leb_ℤ x y then some x else some y

abbrev pub least_with : Option ℤ → Option ℤ → Option ℤ
least_with none least = least
least_with (some x) least = smaller x least

unfoldable pub min_of : {A : Type 0} → (A → Option ℤ) → List A → Option ℤ
min_of f [] = none
min_of f (x ∷ xs) = least_with (f x) (min_of f xs)

abbrev pub in_state : JobState → JobRow → Bool
in_state s r = encode r.state == encode s

abbrev pub all_states : List JobState
all_states = pending ∷ leased ∷ retry_wait ∷ uncertain ∷ succeeded ∷ dead ∷ cancelled ∷ []

unfoldable pub count_in : List JobRow → JobState → ℕ
count_in jobs s = length (select (in_state s) jobs)

-- `SELECT state, COUNT(*) FROM jobs GROUP BY state`: the states that occur.
unfoldable pub group_counts : List JobRow → List JobState → List (Bytes × ℕ)
unfolding count_in state_name
group_counts jobs [] = []
group_counts jobs (s ∷ ss) =
    let rest = group_counts jobs ss in
    if count_in jobs s == 0 then rest else (state_name (pos (encode s)), count_in jobs s) ∷ rest

-- The map by name, in the order of a `BTreeMap`.
unfoldable pub jobs_by_state : List JobRow → List (Bytes × ℕ)
unfolding group_counts
jobs_by_state jobs = order_by (λ a b. bytes_le a.0 b.0) (group_counts jobs all_states)

-- `jobs JOIN transactions ON transaction_id = updated_transaction_id`, the times of the pairs.
unfoldable pub updated_times : Db → List JobRow → List ℤ
updated_times db [] = []
updated_times db (r ∷ rs) =
    map (λ t. t.committed_at_ms)
      (select (λ t. t.transaction_id == r.updated_transaction_id) db.transactions)
    ++ updated_times db rs

unfoldable pub stats : Result ℕ StorageError → File Db → Result StoreStats Error
unfolding min_of jobs_by_state updated_times
stats file_size file = do
  let db = file.schema
  size ← map_err Error.storage file_size
  rows ← ok_or file.schema_migrations (Error.storage (sqlite no_such_table))
  ok (record {
    transactions = length db.transactions;
    events = length db.events;
    streams = length db.streams;
    projections = length db.projection_meta;
    projection_entries = length db.projection_entries;
    jobs_by_state = jobs_by_state db.jobs;
    active_partitions = length db.active_partitions;
    file_size_bytes = size;
    migration_version = max_of (λ r. r.version) rows % 2 ^ 32;
    oldest_active_lease_ms = min_of (λ r. r.lease_expires_at_ms) (select (in_state leased) db.jobs);
    oldest_uncertain_job_ms =
        min_of (λ t. some t) (updated_times db (select (in_state uncertain) db.jobs));
  })
