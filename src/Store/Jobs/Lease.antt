-- ===== src/Store/Jobs/Lease.antt =====
-- `apply_extend_lease` and `extend_lease` of src/store/jobs.rs.
use minisqlite.Base.{
  ℤ, ltb_ℤ, leb_ℤ, i64_min, is_id, unwrap_or, ◌==◌, ◌&&◌, not, some, Result, ok, err, ok_or,
  map_err, reject_if, ◌>>=◌, ◌>>◌,
}
use minisqlite.Id.{Id128}
use minisqlite.Sql.{update}
use minisqlite.Errors.{
  sqlite, commit_failed, LeaseError, job_not_found, invalid_token, not_leased, expiry_not_later,
  expired,
}
use minisqlite.Jobs.{LeaseExtension, LeaseExtensionReceipt}
use minisqlite.Jobs.State.{is_leased}
use minisqlite.Store.Schema.{Db, JobRow, Fate, busy, commits, settle}
use minisqlite.Store.Jobs.Table.{load_job, update_job}

unfoldable pub with_expiry : ℤ → JobRow → JobRow
with_expiry t r = record r { lease_expires_at_ms = some t }

-- The update of `claim_receipts`.
unfoldable pub extend_receipts : Id128 → Id128 → ℤ → Db → Db
extend_receipts job_id token t db = record db {
  claim_receipts =
      update (λ c. c.job_id == job_id && c.lease_token == token)
        (λ c. record c { lease_expires_at_ms = t }) db.claim_receipts;
}

unfoldable pub apply_extend_lease :
    Db → LeaseExtension → ℤ → Result (LeaseExtensionReceipt × Db) LeaseError
unfolding load_job update_job with_expiry extend_receipts
apply_extend_lease db extension now_ms = do
  job ← ok_or (load_job db extension.job_id) (LeaseError.conflict (job_not_found extension.job_id))
  reject_if (not (is_leased job.state))
      (LeaseError.conflict (not_leased extension.job_id job.state))
  reject_if (not (is_id job.lease_token extension.lease_token))
      (LeaseError.conflict (invalid_token extension.job_id))
  let current_ms = unwrap_or job.lease_expires_at_ms i64_min
  reject_if (ltb_ℤ current_ms now_ms)
      (LeaseError.conflict (expired extension.job_id current_ms now_ms))
  reject_if (leb_ℤ extension.new_expiry_ms current_ms)
      (LeaseError.conflict (expiry_not_later extension.job_id current_ms extension.new_expiry_ms))
  db' ←
      map_err LeaseError.storage
        (update_job extension.job_id (with_expiry extension.new_expiry_ms) db)
  ok (
    record {
      job_id = extension.job_id;
      attempt = job.attempt;
      lease_expires_at_ms = extension.new_expiry_ms;
    },
    extend_receipts extension.job_id extension.lease_token extension.new_expiry_ms db',
  )

-- The result of the COMMIT step of `extend_lease`.
unfoldable pub finish_extension :
    Fate
    → Db
    → Id128
    → Result (LeaseExtensionReceipt × Db) LeaseError
    → Result LeaseExtensionReceipt LeaseError × Db
finish_extension busy db job_id r = (err (LeaseError.storage (sqlite commit_failed)), db)
finish_extension fate db job_id (err e) = (err e, db)
finish_extension commits db job_id (ok (receipt, db')) = (ok receipt, settle commits db db')
finish_extension fate db job_id (ok (receipt, db')) =
    (err (LeaseError.indeterminate job_id (sqlite commit_failed)), settle fate db db')

unfoldable pub extend_lease :
    Fate → Db → LeaseExtension → ℤ → Result LeaseExtensionReceipt LeaseError × Db
unfolding apply_extend_lease finish_extension settle
extend_lease fate db extension now_ms =
    finish_extension fate db extension.job_id (apply_extend_lease db extension now_ms)
