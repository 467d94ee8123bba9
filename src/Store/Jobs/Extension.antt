-- ===== src/Store/Jobs/Extension.antt =====
-- What an accepted lease extension means (`apply_extend_lease` of src/store/jobs.rs).
use minisqlite.Base.{
  ℤ, ◌≡◌, refl, subst, ◌∙◌, Bool, true, false, not, ltb_ℤ, leb_ℤ, is_id, unwrap_or, i64_min, Option,
  none, some, arith, ok, map_err, ok_or, reject_if, ◌>>=◌, >>=-eq-ok,
}
use minisqlite.Id.{Id128}
use minisqlite.Errors.{
  LeaseError, job_not_found, not_leased, invalid_token, expired, expiry_not_later,
}
use minisqlite.Jobs.{LeaseExtension, LeaseExtensionReceipt}
use minisqlite.Jobs.State.{is_leased}
use minisqlite.Store.Schema.{Db, JobRow}
use minisqlite.Store.Jobs.Table.{load_job, update_job}
use minisqlite.Store.Jobs.Lease.{apply_extend_lease, with_expiry, extend_receipts}
use minisqlite.Store.Jobs.Rows.{write_row, update_job-write}
use minisqlite.Store.Jobs.Invariant.{JobsOk, load_job-id, load_job-RowOk}
use minisqlite.Store.Jobs.Settle.{found, load_job-write}
use minisqlite.Store.Jobs.Extended.{extended_checks}

not_rejected : {E : Type 0} (b : Bool) (e : E) (u : Unit {0}) → reject_if b e ≡ ok u → b ≡ false
not_rejected true e u h = cc
not_rejected false e u h = refl

there : {E : Type 0} (o : Option JobRow) (e : E) (job : JobRow) → ok_or o e ≡ ok job → o ≡ some job
there none e job h = cc
there (some r) e job h = cc

abbrev expiry : JobRow → ℤ
expiry job = unwrap_or job.lease_expires_at_ms i64_min

receipts-load :
    (db : Db) (a b i : Id128) (at : ℤ) → load_job (extend_receipts a b at db) i ≡ load_job db i
unfolding load_job extend_receipts
receipts-load db a b i at = refl

-- The two updates at the end.
written :
    (db db' : Db) (job : JobRow) (x : LeaseExtension)
    → JobsOk db
    → load_job db x.job_id ≡ some job
    → is_leased job.state ≡ true
    → (a receipt : LeaseExtensionReceipt)
    → ◌>>=◌ {B = LeaseExtensionReceipt × Db}
        (map_err LeaseError.storage (update_job x.job_id (with_expiry x.new_expiry_ms) db))
        (λ d. ok (a, extend_receipts x.job_id x.lease_token x.new_expiry_ms d))
      ≡ ok (receipt, db')
    → load_job db' x.job_id ≡ some (with_expiry x.new_expiry_ms job)
unfolding with_expiry
written db db' job x h e l a receipt q =
    let i = load_job-id db job x.job_id e in
    let w =
      update_job-write x.job_id (with_expiry x.new_expiry_ms) db job h.chain e i
        (extended_checks job x.new_expiry_ms l (load_job-RowOk db job x.job_id h e).checks) in
    let r : extend_receipts x.job_id x.lease_token x.new_expiry_ms
          (write_row (with_expiry x.new_expiry_ms job) db)
        ≡ db' =
      cc (rw w at q) in
    subst (λ d. load_job d x.job_id ≡ some (with_expiry x.new_expiry_ms job)) r
      (receipts-load _ _ _ _ _
        ∙ subst
            (λ k.
              load_job (write_row (with_expiry x.new_expiry_ms job) db) k
              ≡ some (with_expiry x.new_expiry_ms job))
            i
            (load_job-write db job (with_expiry x.new_expiry_ms job) refl (found h x.job_id job e)))

-- On tables that meet `JobsOk` an accepted extension is of a leased job by the holder of its
-- token, at a time when the lease has not expired, to a strictly later time; afterwards the job
-- is as before but for that time.
pub apply_extend_lease-ok :
    (db db' : Db) (x : LeaseExtension) (now : ℤ) (receipt : LeaseExtensionReceipt)
    → JobsOk db
    → apply_extend_lease db x now ≡ ok (receipt, db')
    → (job : JobRow) × (load_job db x.job_id ≡ some job)
      × (is_leased job.state ≡ true)
      × (is_id job.lease_token x.lease_token ≡ true)
      × (ltb_ℤ (unwrap_or job.lease_expires_at_ms i64_min) now ≡ false)
      × (leb_ℤ x.new_expiry_ms (unwrap_or job.lease_expires_at_ms i64_min) ≡ false)
      × (load_job db' x.job_id ≡ some (with_expiry x.new_expiry_ms job))
unfolding apply_extend_lease
apply_extend_lease-ok db db' x now receipt h q =
    let a =
      >>=-eq-ok (ok_or (load_job db x.job_id) (LeaseError.conflict (job_not_found x.job_id))) _ q in
    let b =
      >>=-eq-ok
        (reject_if (not (is_leased a.0.state))
          (LeaseError.conflict (not_leased x.job_id a.0.state)))
        _ a.2 in
    let c =
      >>=-eq-ok
        (reject_if (not (is_id a.0.lease_token x.lease_token))
          (LeaseError.conflict (invalid_token x.job_id)))
        _ b.2 in
    let d =
      >>=-eq-ok
        (reject_if (ltb_ℤ (expiry a.0) now)
          (LeaseError.conflict (expired x.job_id (expiry a.0) now)))
        _ c.2 in
    let f =
      >>=-eq-ok
        (reject_if (leb_ℤ x.new_expiry_ms (expiry a.0))
          (LeaseError.conflict (expiry_not_later x.job_id (expiry a.0) x.new_expiry_ms)))
        _ d.2 in
    let e = there (load_job db x.job_id) _ a.0 a.1 in
    let l = not_rejected _ _ b.0 b.1 in
    (
      a.0,
      e,
      ground (arith, l),
      ground (arith, not_rejected _ _ c.0 c.1),
      not_rejected _ _ d.0 d.1,
      not_rejected _ _ f.0 f.1,
      written db db' a.0 x h e (ground (arith, l)) _ receipt f.2,
    )
