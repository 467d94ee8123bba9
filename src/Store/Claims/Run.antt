-- ===== src/Store/Claims/Run.antt =====
-- `claim_jobs` of src/store/jobs.rs: the planned maintenance and leases in one transaction.
use minisqlite.Base.{
  ℕ, zero, suc, ◌+◌, ◌%◌, ◌/◌, ◌^◌, ℤ, pos, negsuc, Bytes, bytes_eq, List, [], ◌∷◌, ◌++◌, map,
  Option, none, some, ◌&&◌, leb_ℤ, ltb, ◌==◌, is_empty, length, checked_add, utf8, if◌then◌else◌,
  Result, ok, err, ok_or, map_err, reject_if, guard, ◌>>=◌, ◌>>◌,
}
use minisqlite.Id.{Id128, to_hex}
use minisqlite.Sql.{exists_row, upsert, max_of}
use minisqlite.Errors.{
  StorageError, sqlite, unique_violation, foreign_key_violation, commit_failed, ClaimError,
  error_to_claim, empty_queue, empty_worker, bad_lease_ms, lease_overflow,
}
use minisqlite.Jobs.{ClaimRequest, ClaimedJob, ClaimOutcome}
use minisqlite.Jobs.State.{JobState, leased, dead}
use minisqlite.Store.Schema.{Db, JobRow, TransactionRow, ReceiptRow, Fate, busy, commits, settle}
use minisqlite.Store.Checksum.{checksum}
use minisqlite.Store.Jobs.Table.{
  ensure_transition, update_job, set_terminal, set_nonterminal, has_transaction_id,
}
use minisqlite.Store.Claims.Plan.{
  MaintenanceAction, ProposedLease, Plan, new_id, plan_maintenance, plan_leases,
}

abbrev pub expired_at_final : Bytes
expired_at_final = utf8 "lease expired at final attempt"

-- The guards at the top; the result is `lease_expires_at_ms`.
unfoldable pub check_request : ClaimRequest → Result ℤ ClaimError
check_request request = do
  reject_if (is_empty request.queue) (ClaimError.validation empty_queue)
  reject_if (is_empty request.worker_id) (ClaimError.validation empty_worker)
  reject_if (leb_ℤ request.lease_ms (pos 0)) (ClaimError.validation bad_lease_ms)
  ok_or (checked_add request.now_ms request.lease_ms) (ClaimError.validation lease_overflow)

-- The decimal digits of a number below 10 ^ fuel, and `{}` of a 64-bit integer.
unfoldable pub decimal_digits : ℕ → ℕ → Bytes
decimal_digits zero n = []
decimal_digits (suc fuel) n =
    let rest = decimal_digits fuel (n / 10) in
    if ltb n 10 then (b'0' + n) ∷ [] else rest ++ (b'0' + n % 10) ∷ []

unfoldable pub decimal : ℤ → Bytes
unfolding decimal_digits
decimal (pos n) = decimal_digits 20 n
decimal (negsuc n) = b'-' ∷ decimal_digits 20 (suc n)

unfoldable pub claim_text : Id128 → ClaimRequest → Bytes
claim_text transaction_id request =
    utf8 "claim:"
    ++ (to_hex transaction_id
        ++ (b':' ∷ request.queue
            ++ (b':' ∷ request.worker_id
                ++ (b':' ∷ decimal request.now_ms
                    ++ (b':' ∷ decimal request.lease_ms ++ b':' ∷ decimal (pos request.limit))))))

unfoldable pub next_transaction_sequence : Db → ℕ
next_transaction_sequence db = max_of (λ t. t.transaction_sequence) db.transactions + 1

-- `INSERT INTO transactions`: both keys are unique.
unfoldable pub insert_transaction : Db → TransactionRow → Result Db StorageError
insert_transaction db row = do
  reject_if (exists_row (has_transaction_id row.transaction_id) db.transactions)
      (sqlite unique_violation)
  reject_if (exists_row (λ t. t.transaction_sequence == row.transaction_sequence) db.transactions)
      (sqlite unique_violation)
  ok (record db { transactions = db.transactions ++ row ∷ [] })

unfoldable pub insert_claim_transaction : Db → Id128 → ClaimRequest → ℕ → Result Db StorageError
unfolding insert_transaction next_transaction_sequence
insert_claim_transaction db transaction_id request operation_count = insert_transaction db (record {
  transaction_id = transaction_id;
  transaction_sequence = next_transaction_sequence db;
  committed_at_ms = request.now_ms;
  correlation_id = none;
  metadata = [];
  request_digest = checksum (claim_text transaction_id request);
  operation_count = operation_count;
})

-- The `match action.to` of the maintenance loop.
unfoldable pub maintain : Db → ClaimRequest → Id128 → JobRow → JobState → Result Db StorageError
unfolding set_terminal set_nonterminal
maintain db request transaction_id job dead =
    set_terminal db job dead request.now_ms transaction_id none (some expired_at_final)
maintain db request transaction_id job to = set_nonterminal db job.job_id to none transaction_id

unfoldable pub apply_maintenance :
    Db → ClaimRequest → Id128 → List MaintenanceAction → Result Db ClaimError
unfolding maintain ensure_transition
apply_maintenance db request transaction_id [] = ok db
apply_maintenance db request transaction_id (a ∷ as') = do
  map_err error_to_claim (ensure_transition a.job a.to)
  db' ← map_err ClaimError.storage (maintain db request transaction_id a.job a.to)
  apply_maintenance db' request transaction_id as'

-- `lease.job.attempt + 1` of a `u32`.
abbrev pub next_attempt : JobRow → ℕ
next_attempt job = (job.attempt + 1) % 2 ^ 32

-- The assignments that grant a lease.
unfoldable pub to_leased : ClaimRequest → ℤ → Id128 → ℕ → Id128 → JobRow → JobRow
to_leased request expiry transaction_id attempt token r = record r {
  state = leased;
  attempt = attempt;
  lease_token = some token;
  worker_id = some request.worker_id;
  lease_expires_at_ms = some expiry;
  retry_after_ms = none;
  updated_transaction_id = transaction_id;
}

-- `INSERT INTO claim_receipts`.
unfoldable pub insert_receipt : Db → ReceiptRow → Result Db StorageError
insert_receipt db row = do
  reject_if
      (exists_row (λ c. c.transaction_id == row.transaction_id && c.job_id == row.job_id)
        db.claim_receipts)
      (sqlite unique_violation)
  guard (exists_row (has_transaction_id row.transaction_id) db.transactions)
      (sqlite foreign_key_violation)
  ok (record db { claim_receipts = db.claim_receipts ++ row ∷ [] })

unfoldable pub receipt_of : ClaimRequest → ℤ → Id128 → ProposedLease → ReceiptRow
receipt_of request expiry transaction_id l = record {
  transaction_id = transaction_id;
  job_id = l.job.job_id;
  lease_token = l.lease_token;
  attempt = next_attempt l.job;
  worker_id = request.worker_id;
  lease_expires_at_ms = expiry;
}

unfoldable pub claimed_of : ClaimRequest → ℤ → ProposedLease → ClaimedJob
claimed_of request expiry l = record {
  job_id = l.job.job_id;
  queue = l.job.queue;
  partition_key = l.job.partition_key;
  payload = l.job.payload;
  worker_id = request.worker_id;
  lease_token = l.lease_token;
  attempt = next_attempt l.job;
  lease_expires_at_ms = expiry;
  idempotency_key = l.job.idempotency_key;
}

-- One round of the loop over the leases: the update and its receipt.
unfoldable pub grant : Db → ClaimRequest → ℤ → Id128 → ProposedLease → Result Db StorageError
unfolding update_job to_leased insert_receipt receipt_of
grant db request expiry transaction_id l = do
  db' ←
      update_job l.job.job_id
        (to_leased request expiry transaction_id (next_attempt l.job) l.lease_token) db
  insert_receipt db' (receipt_of request expiry transaction_id l)

unfoldable pub grant_all :
    Db → ClaimRequest → ℤ → Id128 → List ProposedLease → Result Db StorageError
unfolding grant
grant_all db request expiry transaction_id [] = ok db
grant_all db request expiry transaction_id (l ∷ ls) = do
  db' ← grant db request expiry transaction_id l
  grant_all db' request expiry transaction_id ls

unfoldable pub move_cursor : Bytes → Option Bytes → Db → Db
move_cursor queue none db = db
move_cursor queue (some partition) db = record db {
  queue_cursors =
      upsert (λ c. bytes_eq c.queue queue)
        (record { queue = queue; last_partition_key = partition })
        (λ c. record c { last_partition_key = partition }) db.queue_cursors;
}

-- What the transaction writes before COMMIT: its id, the claimed jobs and the tables; `none` is
-- the early return of `ClaimOutcome::Noop`.
abbrev pub Written : Type 0
Written = Option (Id128 × List ClaimedJob × Db)

unfoldable pub write_claim :
    (ℕ → Option Bytes)
    → Db
    → ClaimRequest
    → ℤ
    → List MaintenanceAction
    → Plan
    → Result Written ClaimError
unfolding insert_claim_transaction apply_maintenance grant_all move_cursor claimed_of new_id
write_claim entropy db request expiry maintenance (leases, last) =
    if is_empty maintenance && is_empty leases then ok none else do
      transaction_id ← map_err error_to_claim (new_id (entropy (length leases)))
      db₁ ←
          map_err ClaimError.storage (
            insert_claim_transaction db transaction_id request (length maintenance + length leases))
      db₂ ← apply_maintenance db₁ request transaction_id maintenance
      db₃ ← map_err ClaimError.storage (grant_all db₂ request expiry transaction_id leases)
      ok (
          some (
            transaction_id,
            map (claimed_of request expiry) leases,
            move_cursor request.queue last db₃,
          ))

unfoldable pub claim_transaction :
    (ℕ → Option Bytes) → Db → ClaimRequest → ℤ → Result Written ClaimError
unfolding plan_maintenance plan_leases write_claim
claim_transaction entropy db request expiry = do
  plan ← map_err error_to_claim (plan_leases entropy db request)
  write_claim entropy db request expiry (plan_maintenance db request) plan

unfoldable pub granted : Id128 → List ClaimedJob → ClaimOutcome
granted transaction_id [] = ClaimOutcome.maintenance_committed transaction_id
granted transaction_id jobs =
    ClaimOutcome.committed
      (record { transaction_id = transaction_id; jobs = jobs; stale_jobs = [] })

-- COMMIT and the outcome. A Noop and an error roll back.
unfoldable pub finish_claim :
    Fate → Db → Result Written ClaimError → Result ClaimOutcome ClaimError × Db
unfolding granted settle
finish_claim busy db r = (err (ClaimError.storage (sqlite commit_failed)), db)
finish_claim fate db (err e) = (err e, db)
finish_claim fate db (ok none) = (ok ClaimOutcome.noop, db)
finish_claim commits db (ok (some (transaction_id, jobs, db'))) =
    (ok (granted transaction_id jobs), settle commits db db')
finish_claim fate db (ok (some (transaction_id, jobs, db'))) = (
  err (ClaimError.indeterminate transaction_id (map (λ j. j.job_id) jobs) (sqlite commit_failed)),
  settle fate db db',
)

-- The transaction after the guards.
unfoldable pub run_claim :
    Fate
    → (ℕ → Option Bytes)
    → Db
    → ClaimRequest
    → Result ℤ ClaimError
    → Result ClaimOutcome ClaimError × Db
unfolding claim_transaction finish_claim
run_claim fate entropy db request (err e) = (err e, db)
run_claim fate entropy db request (ok expiry) =
    finish_claim fate db (claim_transaction entropy db request expiry)

unfoldable pub claim_jobs :
    Fate → (ℕ → Option Bytes) → Db → ClaimRequest → Result ClaimOutcome ClaimError × Db
unfolding check_request run_claim
claim_jobs fate entropy db request = run_claim fate entropy db request (check_request request)
