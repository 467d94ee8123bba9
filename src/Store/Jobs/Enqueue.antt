-- ===== src/Store/Jobs/Enqueue.antt =====
-- `apply_enqueue` of src/store/jobs.rs and the invariant of the job tables.
use minisqlite.Base.{
  ℕ, ◌<◌, ◌^◌, ◌≡◌, refl, ap, sym, subst, ◌∙◌, true, false, ◌&&◌, ◌||◌, ◌==◌, is_some, Bytes,
  bytes_eq, bytes_eq_iff, List, [], ◌∷◌, ◌++◌, All, All-append, All-zip, arith, ok, map_err, ◌>>=◌,
  Bool-cases, inl, inr, Ensures, Ensures-ok, Ensures-reject_if, Ensures-guard, Ensures-then,
}
use minisqlite.Id.{Id128}
use minisqlite.Errors.{Error}
use minisqlite.Jobs.{JobSpec}
use minisqlite.Jobs.State.{is_active}
use minisqlite.Sql.{exists_row}
use minisqlite.Sql.Rows.{exists_row-append, find_row-exists, max_of-All, exists_row-All}
use minisqlite.Store.Schema.{Db, JobRow, check_row}
use minisqlite.Store.Jobs.Table.{
  has_job_id, has_transaction_id, active_in, is_partition, load_job, new_row, insert_job,
  insert_partition,
}
use minisqlite.Store.Jobs.Ops.{apply_enqueue, next_sequence}
use minisqlite.Store.Jobs.Rows.{Before, Chain}
use minisqlite.Store.Jobs.Invariant.{RowOk, JobsOk}

-- Appending a job that was enqueued after all others.
Chain-append :
    (xs : List JobRow) (r : JobRow) → Chain xs → All (λ x. Before x r) xs → Chain (xs ++ r ∷ [])
Chain-append [] r c b = (tt, tt)
Chain-append (x ∷ xs) r c b =
    (All-append (Before x) xs (r ∷ []) c.0 (b.0, tt), Chain-append xs r c.1 b.1)

-- The jobs that are there come before the new one.
new_row-Before :
    (db : Db) (t : Id128) (spec : JobSpec)
    → exists_row (has_job_id spec.job_id) db.jobs ≡ false
    → All (λ x. Before x (new_row t (next_sequence db) spec)) db.jobs
unfolding new_row next_sequence
new_row-Before db t spec n =
    All-zip _ _ _ db.jobs
      (λ x p q. record {
        ids = ground (arith, p);
        sequences = omega (arith, q);
        waits = λ _ _ _. refl;
      })
      (exists_row-All (has_job_id spec.job_id) db.jobs n)
      (max_of-All (λ r. r.enqueue_sequence) db.jobs)

-- `INSERT OR IGNORE` into the partitions: the new one is there, the others as before.
insert_partition-exists :
    (db : Db) (n : ℕ) (q p q' p' : Bytes)
    → exists_row (is_partition q' p') (insert_partition q p n db).active_partitions
      ≡ (exists_row (is_partition q' p') db.active_partitions || (bytes_eq q q' && bytes_eq p p'))
unfolding insert_partition exists_row
insert_partition-exists db n q p q' p' =
    elim (Bool-cases (exists_row (is_partition q p) db.active_partitions)) [
      | inr e ↦ rw e (exists_row-append (is_partition q' p') db.active_partitions _ ∙ ground arith)
      | inl e ↦ elim (Bool-cases (bytes_eq q q' && bytes_eq p p')) [
        | inl f ↦
            let eq : q ≡ q' = (bytes_eq_iff q q').0 (ground (arith, f)) in
            let ep : p ≡ p' = (bytes_eq_iff p p').0 (ground (arith, f)) in
            rw (e, ← eq, ← ep, e) refl
        | inr f ↦ rw (e, f) (ground arith)
      ]
    ]

insert_partition-jobs : (db : Db) (n : ℕ) (q p : Bytes) → (insert_partition q p n db).jobs ≡ db.jobs
unfolding insert_partition
insert_partition-jobs db n q p = ground arith

inserted-JobsOk :
    (db : Db) (r : JobRow)
    → JobsOk db
    → RowOk r
    → All (λ x. Before x r) db.jobs
    → is_active r.state ≡ true
    → JobsOk (
        insert_partition r.queue r.partition_key r.enqueue_sequence
          (record db { jobs = db.jobs ++ r ∷ [] }))
unfolding exists_row
inserted-JobsOk db r h k b a =
    let db' : Db = record db { jobs = db.jobs ++ r ∷ [] } in
    let j = insert_partition-jobs db' r.enqueue_sequence r.queue r.partition_key in
    record {
      rows = subst (All RowOk) (sym j) (All-append RowOk db.jobs (r ∷ []) h.rows (k, tt));
      chain = subst Chain (sym j) (Chain-append db.jobs r h.chain b);
      partitions = λ q p.
          insert_partition-exists db' r.enqueue_sequence r.queue r.partition_key q p
          ∙ ground (arith, h.partitions q p, a)
          ∙ sym (exists_row-append (active_in q p) db.jobs (r ∷ []))
          ∙ ap (exists_row (active_in q p)) (sym j);
    }

new_row-RowOk :
    (t : Id128) (spec : JobSpec) (n : ℕ)
    → spec.max_attempts < 2 ^ 32
    → check_row (new_row t n spec) ≡ true
    → RowOk (new_row t n spec)
unfolding new_row check_row
new_row-RowOk t spec n w c = record {
  checks = c;
  attempts = omega arith;
  left = λ _. ground (arith, c);
  word = w;
}

inserted_then :
    (db : Db) (r : JobRow)
    → (check_row r ≡ true
        → JobsOk (
            insert_partition r.queue r.partition_key r.enqueue_sequence
              (record db { jobs = db.jobs ++ r ∷ [] })))
    → Ensures JobsOk (
        map_err Error.storage (insert_job db r) >>= λ db'.
        ok (insert_partition r.queue r.partition_key r.enqueue_sequence db'))
unfolding insert_job
inserted_then db r h = Ensures-then _ Error.storage (insert_job db r) (
    Ensures-reject_if (exists_row (has_job_id r.job_id) db.jobs) _ _ (λ _.
      Ensures-reject_if (exists_row (λ s. s.enqueue_sequence == r.enqueue_sequence) db.jobs) _ _
        (λ _.
          Ensures-guard (exists_row (has_transaction_id r.enqueue_transaction_id) db.transactions) _
            _ (λ _. Ensures-guard (check_row r) _ _ (λ c. Ensures-ok _ _ refl (h c))))))

pub apply_enqueue-JobsOk :
    {db : Db}
    → JobsOk db
    → (t : Id128) (spec : JobSpec) → spec.max_attempts < 2 ^ 32
    → Ensures JobsOk (apply_enqueue db t spec)
unfolding apply_enqueue load_job insert_job new_row
apply_enqueue-JobsOk {db} h t spec w =
    Ensures-reject_if (is_some (load_job db spec.job_id)) _ _ (λ n.
      let free : exists_row (has_job_id spec.job_id) db.jobs ≡ false =
        sym (find_row-exists (has_job_id spec.job_id) db.jobs) ∙ n in
      inserted_then _ _ (λ c.
        inserted-JobsOk db (new_row t (next_sequence db) spec) h
          (new_row-RowOk t spec (next_sequence db) w c) (new_row-Before db t spec free) refl))
