-- ===== src/Store/Jobs/Extended.antt =====
-- `apply_extend_lease` of src/store/jobs.rs and the invariant of the job tables.
use minisqlite.Base.{
  ℤ, ◌≡◌, refl, sym, subst, true, not, some, arith, Result, ok, err, ok-injective, map_err, ◌>>=◌,
  is_id, ltb_ℤ, leb_ℤ, unwrap_or, i64_min, Ensures, Ensures-ok, Ensures-ok_or, Ensures-reject_if,
}
use minisqlite.Id.{Id128}
use minisqlite.Errors.{StorageError, LeaseError}
use minisqlite.Jobs.{LeaseExtension}
use minisqlite.Jobs.State.{is_leased}
use minisqlite.Store.Schema.{Db, JobRow, check_row}
use minisqlite.Store.Jobs.Lease.{apply_extend_lease, with_expiry, extend_receipts}
use minisqlite.Store.Jobs.Table.{load_job, update_job}
use minisqlite.Store.Jobs.Ops.{}
use minisqlite.Store.Jobs.Rows.{update_job-write}
use minisqlite.Store.Jobs.Invariant.{JobsOk, load_job-RowOk, load_job-id, write-JobsOk}
use minisqlite.Store.Jobs.Preserve.{}
use minisqlite.Store.Jobs.Settle.{found}

pub extended_checks :
    (r : JobRow) (at : ℤ)
    → is_leased r.state ≡ true
    → check_row r ≡ true
    → check_row (with_expiry at r) ≡ true
unfolding check_row with_expiry
extended_checks r at a h = ground (arith, a, h)

module _ (db : Db) (r : JobRow) (h : JobsOk db) (e : load_job db r.job_id ≡ some r) where
  extended :
      (job_id token : Id128) (at : ℤ)
      → job_id ≡ r.job_id
      → is_leased r.state ≡ true
      → Ensures
          (λ db'. JobsOk (extend_receipts job_id token at db'))
          (update_job job_id (with_expiry at) db)
  unfolding with_expiry extend_receipts
  extended job_id token at i a =
      let k = load_job-RowOk db r r.job_id h e in
      let c = extended_checks r at a k.checks in
      let ok' =
        write-JobsOk db r (with_expiry at r) h e
          (record {
            id = refl;
            sequence = refl;
            queue = refl;
            partition_key = refl;
            active = λ b. b;
            fresh = λ b f. f;
          })
          (record { checks = c; attempts = k.attempts; left = k.left; word = k.word })
          (ground (arith, a)) in
      rw i (
        Ensures-ok _ _ (update_job-write r.job_id (with_expiry at) db r h.chain e refl c)
          (record { rows = ok'.rows; chain = ok'.chain; partitions = ok'.partitions }))

-- The update is followed by that of the receipts.
written :
    {A : Type 0} (P : Db → Type 0) (g : Db → Db) (a : A) (m : Result Db StorageError)
    → Ensures (λ db'. P (g db')) m
    → Ensures {A = A × Db} (λ p. P p.1) (map_err LeaseError.storage m >>= λ db'. ok (a, g db'))
written {A = A} P g a (ok db') h = record {
  at = λ p e. subst (λ (q : A × Db). P q.1) (ok-injective e) (h.at db' refl);
}
written P g a (err x) h = record { at = λ p e. cc }

module _ {db : Db} (h : JobsOk db) where
  pub apply_extend_lease-JobsOk :
      (x : LeaseExtension) (now : ℤ) → Ensures (λ p. JobsOk p.1) (apply_extend_lease db x now)
  unfolding apply_extend_lease
  apply_extend_lease-JobsOk x now = Ensures-ok_or _ _ _ (λ job e.
      Ensures-reject_if (not (is_leased job.state)) _ _ (λ l.
        Ensures-reject_if (not (is_id job.lease_token x.lease_token)) _ _ (λ _.
          Ensures-reject_if (ltb_ℤ (unwrap_or job.lease_expires_at_ms i64_min) now) _ _ (λ _.
            Ensures-reject_if (leb_ℤ x.new_expiry_ms (unwrap_or job.lease_expires_at_ms i64_min)) _
              _
              (λ _. written JobsOk (extend_receipts x.job_id x.lease_token x.new_expiry_ms) _ _ (
                extended db job h (found h _ job e) x.job_id x.lease_token x.new_expiry_ms
                  (sym (load_job-id db job x.job_id e)) (ground (arith, l))))))))
