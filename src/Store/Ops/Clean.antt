-- ===== src/Store/Ops/Clean.antt =====
-- `verify` of src/store/ops.rs on tables that meet the invariant of the job tables.
use minisqlite.Base.{
  ◌≡◌, refl, sym, ap, ◌∙◌, Bytes, bytes_eq, bytes_eq_refl, utf8, List, [], ◌∷◌, ◌++◌, map, All,
  All-append, All-mono, Bool, true, false, not, ◌||◌, arith, Bool-cases, inl, inr, ok, map_err,
  Ensures-bind, Ensures-ok, if◌then◌else◌,
}
use minisqlite.Errors.{Error}
use minisqlite.Sql.{select, exists_row}
use minisqlite.Store.Schema.{Db, JobRow, PartitionRow, check_row}
use minisqlite.Store.Jobs.Table.{is_partition}
use minisqlite.Store.Jobs.Invariant.{JobsOk, RowOk}
use minisqlite.Store.Migrations.{Migration, MigrationStatus, File, status}
use minisqlite.Store.Ops.Verify.{
  VerifyFinding, VerifyReport, ForeignKeyRow, integrity_findings, foreign_key_finding,
  checksum_findings, migration_findings, stream_finding, orphan_finding, lease_left, is_idle,
  lease_missing, job_missing_finding, transaction_missing_finding, semantic_checks, verify,
}

-- The checks of the state of jobs and their partitions.
unfoldable pub is_job_check : VerifyFinding → Bool
is_job_check f =
    bytes_eq f.check (utf8 "terminal_jobs")
    || (bytes_eq f.check (utf8 "active_partitions") || bytes_eq f.check (utf8 "leased_jobs"))

abbrev Other : VerifyFinding → Type 0
Other f = is_job_check f ≡ false

-- No finding is of such a check.
record Silent (findings : List VerifyFinding) : Type 0 where
  others : All Other findings

Silent-map :
    {A : Type 0} (f : A → VerifyFinding) (xs : List A) → ((x : A) → Other (f x)) → Silent (map f xs)
Silent-map f [] h = record { others = tt }
Silent-map f (x ∷ xs) h = record { others = (h x, (Silent-map f xs h).others) }

Silent-append : {xs ys : List VerifyFinding} → Silent xs → Silent ys → Silent (xs ++ ys)
Silent-append h k = record { others = All-append Other _ _ h.others k.others }

select_empty :
    {A : Type 0} (p : A → Bool) (xs : List A) → All (λ x. p x ≡ false) xs → select p xs ≡ []
unfolding select
select_empty p [] h = refl
select_empty p (x ∷ xs) h = rw h.0 (select_empty p xs h.1)

integrity_findings-Other : (rows : List Bytes) → All Other (integrity_findings rows)
unfolding integrity_findings is_job_check bytes_eq
integrity_findings-Other [] = tt
integrity_findings-Other (r ∷ rs) = elim (Bool-cases (bytes_eq r (utf8 "ok"))) [
  | inl e ↦ rw e (integrity_findings-Other rs)
  | inr e ↦ rw e (refl, integrity_findings-Other rs)
]

checksum_findings-Other :
    (check : Bytes) (ss : List MigrationStatus)
    → Other (record { check = check; detail = [] })
    → All Other (checksum_findings check ss)
unfolding checksum_findings is_job_check
checksum_findings-Other check [] h = tt
checksum_findings-Other check (s ∷ ss) h = elim (Bool-cases s.checksum_ok) [
  | inl e ↦ rw e (checksum_findings-Other check ss h)
  | inr e ↦ rw e (h, checksum_findings-Other check ss h)
]

migration_findings-Other : (ss : List MigrationStatus) → All Other (migration_findings ss)
unfolding migration_findings is_job_check bytes_eq
migration_findings-Other [] = (refl, checksum_findings-Other (utf8 "migrations") [] refl)
migration_findings-Other (s ∷ ss) = checksum_findings-Other (utf8 "migrations") (s ∷ ss) refl

lease_left-RowOk : (r : JobRow) → RowOk r → lease_left r ≡ false
unfolding check_row
lease_left-RowOk r h = ground (arith, h.checks)

lease_missing-RowOk : (r : JobRow) → RowOk r → lease_missing r ≡ false
unfolding check_row
lease_missing-RowOk r h = ground (arith, h.checks)

found : (b c : Bool) → c ≡ true → (if b then true else c) ≡ true
found true c h = refl
found false c h = h

-- Every partition that is listed has a nonterminal job.
listed :
    (xs : List PartitionRow)
    → All (λ a. exists_row (is_partition a.queue a.partition_key) xs ≡ true) xs
unfolding exists_row
listed [] = tt
listed (x ∷ xs) = (
  rw (bytes_eq_refl x.queue, bytes_eq_refl x.partition_key) refl,
  All-mono _ _ xs (λ a h. found (is_partition a.queue a.partition_key x) _ h) (listed xs),
)

is_idle-JobsOk : (db : Db) → JobsOk db → All (λ p. is_idle db p ≡ false) db.active_partitions
is_idle-JobsOk db h =
    All-mono _ _ db.active_partitions
      (λ a e. ap not (sym (h.partitions a.queue a.partition_key) ∙ e)) (listed db.active_partitions)

semantic_checks-Silent :
    (ss : List MigrationStatus) (db : Db) → JobsOk db → Silent (semantic_checks ss db)
unfolding semantic_checks is_job_check bytes_eq
semantic_checks-Silent ss db h =
    rw
      (
        select_empty lease_left db.jobs (All-mono _ _ db.jobs lease_left-RowOk h.rows),
        select_empty (is_idle db) db.active_partitions (is_idle-JobsOk db h),
        select_empty lease_missing db.jobs (All-mono _ _ db.jobs lease_missing-RowOk h.rows),
      )
      (Silent-append (Silent-map (stream_finding db) _ (λ s. refl)) (
        Silent-append (Silent-map orphan_finding _ (λ s. refl)) (
          Silent-append
            (record { others = checksum_findings-Other (utf8 "migration_checksums") ss refl })
            (Silent-append (Silent-map job_missing_finding _ (λ c. refl))
              (Silent-map transaction_missing_finding _ (λ c. refl))))))

-- On tables that meet `JobsOk` a verification that returns a report finds no terminal job with
-- lease fields, no leased job without them and no active partition without a nonterminal job.
pub verify-JobsOk :
    (migrations : List Migration) (integrity : List Bytes) (foreign_keys : List ForeignKeyRow)
    (file : File Db) (report : VerifyReport)
    → JobsOk file.schema
    → verify migrations integrity foreign_keys file ≡ ok report
    → All (λ f. is_job_check f ≡ false) report
unfolding verify is_job_check bytes_eq
verify-JobsOk migrations integrity foreign_keys file report h e =
    (Ensures-bind {P = All Other} (map_err Error.storage (status migrations file)) _ (λ ss _.
        Ensures-ok _ _ refl
          (Silent-append (record { others = integrity_findings-Other integrity })
            (Silent-append (Silent-map foreign_key_finding foreign_keys (λ r. refl)) (
              Silent-append (record { others = migration_findings-Other ss })
                (semantic_checks-Silent ss file.schema h)))).others)).at
      report e
