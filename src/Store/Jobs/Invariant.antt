-- ===== src/Store/Jobs/Invariant.antt =====
-- The invariant of the job tables, and the two ways in which a row is replaced.
use minisqlite.Base.{
  ℕ, ◌≤◌, ◌<◌, ◌^◌, ◌≡◌, refl, sym, ap, ◌∙◌, Bool, true, false, not, ◌&&◌, Bytes, bytes_eq_iff,
  some, All, arith, Bool-cases, inl, inr,
}
use minisqlite.Sql.{exists_row, delete}
use minisqlite.Sql.Rows.{
  find_row-All, find_row-test, exists_row-delete, exists_row-delete_all, delete_none,
}
use minisqlite.Jobs.State.{JobState, pending, retry_wait, is_active}
use minisqlite.Store.Schema.{Db, JobRow, PartitionRow, empty_db, check_row}
use minisqlite.Store.Jobs.Table.{
  has_job_id, in_partition, active_in, is_partition, load_job, drain_partition_if_empty,
}
use minisqlite.Store.Jobs.Rows.{
  Chain, Moves, put_row, All-put, Chain-put, exists-put, exists-put_mono, write_row,
}

abbrev pub is_waiting : JobState → Bool
is_waiting pending = true
is_waiting retry_wait = true
is_waiting _ = false

-- A row: its CHECK constraints hold, its attempts stay within the limit, and a job that waits for
-- a claim has an attempt left.
pub record RowOk (r : JobRow) : Type 0 where
  pub checks : check_row r ≡ true
  pub attempts : r.attempt ≤ r.max_attempts
  pub left : is_waiting r.state ≡ true → r.attempt < r.max_attempts
  pub word : r.max_attempts < 2 ^ 32

pub record JobsOk (db : Db) : Type 0 where
  pub rows : All RowOk db.jobs
  pub chain : Chain db.jobs
  pub partitions :
      (q p : Bytes)
      → exists_row (is_partition q p) db.active_partitions ≡ exists_row (active_in q p) db.jobs

pub JobsOk-empty : JobsOk empty_db
unfolding exists_row
JobsOk-empty = record { rows = tt; chain = tt; partitions = λ q p. refl }

-- A loaded row satisfies what all rows do.
pub load_job-RowOk :
    (db : Db) (r : JobRow) (job_id : ℕ) → JobsOk db → load_job db job_id ≡ some r → RowOk r
unfolding load_job
load_job-RowOk db r job_id h e = find_row-All RowOk (has_job_id job_id) db.jobs h.rows e

pub load_job-id :
    (db : Db) (r : JobRow) (job_id : ℕ) → load_job db job_id ≡ some r → r.job_id ≡ job_id
unfolding load_job
load_job-id db r job_id e = ground (arith, find_row-test (has_job_id job_id) db.jobs e)

active_in-Moves :
    (r r' : JobRow) (q p : Bytes)
    → Moves r r'
    → is_active r'.state ≡ true
    → active_in q p r' ≡ active_in q p r
active_in-Moves r r' q p m a = rw (m.queue, m.partition_key, a, m.active a)

-- The key of a partition is unlike another.
other_partition :
    (r : JobRow) (q p : Bytes) (a : PartitionRow)
    → in_partition q p r ≡ false
    → is_partition q p a ≡ true
    → is_partition r.queue r.partition_key a ≡ false
other_partition r q p a h k = ground (
  arith,
  bytes_eq_iff a.queue q,
  bytes_eq_iff a.queue r.queue,
  bytes_eq_iff a.partition_key p,
  bytes_eq_iff a.partition_key r.partition_key,
  bytes_eq_iff r.queue q,
  bytes_eq_iff r.partition_key p,
)

module _ (db : Db) (r r' : JobRow) (h : JobsOk db) (e : load_job db r'.job_id ≡ some r)
    (m : Moves r r') (ok' : RowOk r') where
  -- A transition to a nonterminal state.
  pub write-JobsOk : is_active r'.state ≡ true → JobsOk (write_row r' db)
  unfolding write_row load_job
  write-JobsOk a = record {
    rows = All-put RowOk r' db.jobs ok' h.rows;
    chain = Chain-put r r' db.jobs e m h.chain;
    partitions = λ q p.
        h.partitions q p
        ∙ sym (exists-put r r' (active_in q p) db.jobs e (active_in-Moves r r' q p m a));
  }

  -- In the partition of the row, what is left decides.
  drained_here :
      is_active r'.state ≡ false
      → (b : Bool) → exists_row (active_in r.queue r.partition_key) (put_row r' db.jobs) ≡ b
      → exists_row
          (is_partition r.queue r.partition_key)
          (delete (λ a. is_partition r.queue r.partition_key a && not b) db.active_partitions)
        ≡ b
  unfolding load_job
  drained_here a true n =
      ap (exists_row (is_partition r.queue r.partition_key)) (
        delete_none (λ x. is_partition r.queue r.partition_key x && false) db.active_partitions
          (λ x. ground arith))
      ∙ h.partitions r.queue r.partition_key
      ∙ exists-put_mono r r' (active_in r.queue r.partition_key) db.jobs e (λ t. ground arith) n
  drained_here a false n =
      exists_row-delete_all _ (λ x. is_partition r.queue r.partition_key x && true)
        db.active_partitions (λ x t. ground arith)

  drained_elsewhere :
      is_active r'.state ≡ false
      → (q p : Bytes) (b : Bool) → in_partition q p r ≡ false
      → exists_row
          (is_partition q p)
          (delete (λ a. is_partition r.queue r.partition_key a && b) db.active_partitions)
        ≡ exists_row (active_in q p) (put_row r' db.jobs)
  unfolding load_job
  drained_elsewhere a q p b n =
      exists_row-delete (is_partition q p) (λ x. is_partition r.queue r.partition_key x && b)
        db.active_partitions (λ x t. rw (other_partition r q p x n t))
      ∙ h.partitions q p
      ∙ sym (exists-put r r' (active_in q p) db.jobs e (ground arith))

  drained :
      is_active r'.state ≡ false
      → (q p : Bytes)
      → exists_row (is_partition q p) (
          delete
            (λ a.
              is_partition r.queue r.partition_key a
              && not (exists_row (active_in r.queue r.partition_key) (put_row r' db.jobs)))
            db.active_partitions)
        ≡ exists_row (active_in q p) (put_row r' db.jobs)
  drained a q p = elim (Bool-cases (in_partition q p r)) [
    | inr n ↦ drained_elsewhere a q p _ n
    | inl n ↦
        let eq : r.queue ≡ q = (bytes_eq_iff r.queue q).0 (ground arith) in
        let ep : r.partition_key ≡ p = (bytes_eq_iff r.partition_key p).0 (ground arith) in
        rw (← eq, ← ep) (drained_here a _ refl)
  ]

  -- A transition to a terminal state, with `drain_partition_if_empty` after it.
  pub drain-JobsOk :
      is_active r'.state ≡ false
      → JobsOk (drain_partition_if_empty r.queue r.partition_key (write_row r' db))
  unfolding write_row load_job drain_partition_if_empty
  drain-JobsOk a = record {
    rows = All-put RowOk r' db.jobs ok' h.rows;
    chain = Chain-put r r' db.jobs e m h.chain;
    partitions = λ q p. drained a q p;
  }
