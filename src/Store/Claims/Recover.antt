-- ===== src/Store/Claims/Recover.antt =====
-- `recover_claim` of src/store/jobs.rs.
use minisqlite.Base.{
  ℤ, List, [], ◌∷◌, Option, none, some, Bool, false, ◌&&◌, leb, leb_ℤ, ◌==◌, is_id, is_empty,
  if◌then◌else◌,
}
use minisqlite.Id.{Id128}
use minisqlite.Sql.{select, exists_row, order_by}
use minisqlite.Jobs.{ClaimedJob, ClaimRecovery}
use minisqlite.Jobs.State.{is_leased}
use minisqlite.Store.Schema.{Db, JobRow, ReceiptRow}
use minisqlite.Store.Jobs.Table.{load_job, has_transaction_id}

-- `claim_receipts r JOIN jobs j ON j.job_id = r.job_id`: a receipt with its job, if it has one.
abbrev pub cons_joined :
    ReceiptRow → Option JobRow → List (ReceiptRow × JobRow) → List (ReceiptRow × JobRow)
cons_joined r none rest = rest
cons_joined r (some j) rest = (r, j) ∷ rest

unfoldable pub join_jobs : Db → List ReceiptRow → List (ReceiptRow × JobRow)
unfolding load_job
join_jobs db [] = []
join_jobs db (r ∷ rs) = cons_joined r (load_job db r.job_id) (join_jobs db rs)

unfoldable pub receipts_of : Db → Id128 → List (ReceiptRow × JobRow)
unfolding join_jobs
receipts_of db transaction_id = join_jobs db (
    order_by (λ r s. leb r.job_id s.job_id)
      (select (λ r. r.transaction_id == transaction_id) db.claim_receipts))

abbrev pub expires_from : Option ℤ → ℤ → Bool
expires_from none now = false
expires_from (some t) now = leb_ℤ now t

unfoldable pub still_current : ℤ → ReceiptRow × JobRow → Bool
still_current now (r, j) =
    is_leased j.state
    && (is_id j.lease_token r.lease_token && expires_from j.lease_expires_at_ms now)

unfoldable pub reconstruct : ReceiptRow × JobRow → ClaimedJob
reconstruct (r, j) = record {
  job_id = r.job_id;
  queue = j.queue;
  partition_key = j.partition_key;
  payload = j.payload;
  worker_id = r.worker_id;
  lease_token = r.lease_token;
  attempt = r.attempt;
  lease_expires_at_ms = r.lease_expires_at_ms;
  idempotency_key = j.idempotency_key;
}

-- The loop over the rows: the executable jobs, and the stale ones.
unfoldable pub current_jobs : ℤ → List (ReceiptRow × JobRow) → List ClaimedJob
unfolding still_current reconstruct
current_jobs now [] = []
current_jobs now (x ∷ xs) =
    let rest = current_jobs now xs in if still_current now x then reconstruct x ∷ rest else rest

unfoldable pub stale_ids : ℤ → List (ReceiptRow × JobRow) → List Id128
unfolding still_current
stale_ids now [] = []
stale_ids now (x ∷ xs) =
    let rest = stale_ids now xs in if still_current now x then rest else x.0.job_id ∷ rest

unfoldable pub recover_claim : Db → Id128 → ℤ → ClaimRecovery
unfolding receipts_of current_jobs stale_ids
recover_claim db transaction_id now =
    if is_empty (receipts_of db transaction_id)
    then if exists_row (has_transaction_id transaction_id) db.transactions
      then ClaimRecovery.maintenance_committed transaction_id
      else ClaimRecovery.absent
    else ClaimRecovery.committed (record {
      transaction_id = transaction_id;
      jobs = current_jobs now (receipts_of db transaction_id);
      stale_jobs = stale_ids now (receipts_of db transaction_id);
    })
