-- ===== src/Store/Claims/Claimed.antt =====
-- The transaction of `claim_jobs` of src/store/jobs.rs and the invariant of the job tables.
use minisqlite.Base.{
  ℕ, ℤ, ◌≡◌, refl, ◌&&◌, ◌+◌, map, length, Bytes, Option, none, some, All, All-mono, is_empty,
  Result, ok, err, map_err, Ensures, Ensures-bind, Ensures-ok, Ensures-if,
}
use minisqlite.Errors.{Error, ClaimError, error_to_claim}
use minisqlite.Jobs.{ClaimRequest}
use minisqlite.Store.Schema.{Db, Fate, busy, commits, unknown_kept, unknown_lost, settle}
use minisqlite.Store.Jobs.Invariant.{JobsOk}
use minisqlite.Store.Commit.SameJobs.{SameJobs-JobsOk}
use minisqlite.Store.Claims.Plan.{Plan, plan_maintenance, plan_leases, new_id}
use minisqlite.Store.Claims.Leases.{plan_leases-Grantable}
use minisqlite.Store.Claims.Run.{
  Written, move_cursor, write_claim, claim_transaction, claimed_of, finish_claim, run_claim,
  check_request, claim_jobs,
}
use minisqlite.Store.Claims.Maintaining.{Unleased}
use minisqlite.Store.Claims.Preserve.{
  WrittenOk, written, move_cursor-SameJobs, plan_maintenance-Due, plan_maintenance-Apart,
  Grantable-Unleased,
}

unmapped : (m : Result Plan Error) (plan : Plan) → map_err error_to_claim m ≡ ok plan → m ≡ ok plan
unmapped (ok p) plan e = cc
unmapped (err x) plan e = cc

module _ (entropy : ℕ → Option Bytes) (db : Db) (h : JobsOk db) (request : ClaimRequest) where
  write_claim-WrittenOk :
      (expiry : ℤ) (plan : Plan)
      → All (Unleased db) plan.0
      → Ensures WrittenOk (write_claim entropy db request expiry (plan_maintenance db request) plan)
  unfolding write_claim WrittenOk
  write_claim-WrittenOk expiry (leases, last) u =
      Ensures-if (is_empty (plan_maintenance db request) && is_empty leases) _ _
        (λ _. Ensures-ok _ _ refl tt)
        (λ _. Ensures-bind (map_err error_to_claim (new_id (entropy (length leases)))) _ (λ t _.
          written db h request expiry t (length (plan_maintenance db request) + length leases)
            (plan_maintenance db request) leases last
            (λ d.
              some (t, map (claimed_of request expiry) leases, move_cursor request.queue last d))
            (plan_maintenance-Due db h request) (plan_maintenance-Apart db h request) u
            (λ d k. SameJobs-JobsOk d _ k (move_cursor-SameJobs request.queue last d))))

  claim_transaction-WrittenOk :
      (expiry : ℤ) → Ensures WrittenOk (claim_transaction entropy db request expiry)
  unfolding claim_transaction
  claim_transaction-WrittenOk expiry =
      Ensures-bind (map_err error_to_claim (plan_leases entropy db request)) _ (λ plan e.
        write_claim-WrittenOk expiry plan (
          All-mono _ (Unleased db) plan.0 (Grantable-Unleased db h request)
            (plan_leases-Grantable entropy db request plan (unmapped _ plan e)).0))

finish_claim-JobsOk :
    (fate : Fate) (db : Db) (m : Result Written ClaimError)
    → JobsOk db
    → Ensures WrittenOk m
    → JobsOk (finish_claim fate db m).1
unfolding finish_claim settle WrittenOk
finish_claim-JobsOk busy db (err e) h k = h
finish_claim-JobsOk busy db (ok none) h k = h
finish_claim-JobsOk busy db (ok (some w)) h k = h
finish_claim-JobsOk commits db (err e) h k = h
finish_claim-JobsOk commits db (ok none) h k = h
finish_claim-JobsOk commits db (ok (some (t, jobs, d))) h k = k.at (some (t, jobs, d)) refl
finish_claim-JobsOk unknown_kept db (err e) h k = h
finish_claim-JobsOk unknown_kept db (ok none) h k = h
finish_claim-JobsOk unknown_kept db (ok (some (t, jobs, d))) h k = k.at (some (t, jobs, d)) refl
finish_claim-JobsOk unknown_lost db (err e) h k = h
finish_claim-JobsOk unknown_lost db (ok none) h k = h
finish_claim-JobsOk unknown_lost db (ok (some (t, jobs, d))) h k = h

run_claim-JobsOk :
    (fate : Fate) (entropy : ℕ → Option Bytes) (db : Db) (request : ClaimRequest)
    (m : Result ℤ ClaimError)
    → JobsOk db
    → JobsOk (run_claim fate entropy db request m).1
unfolding run_claim
run_claim-JobsOk fate entropy db request (err e) h = h
run_claim-JobsOk fate entropy db request (ok expiry) h =
    finish_claim-JobsOk fate db _ h (claim_transaction-WrittenOk entropy db h request expiry)

-- On tables that meet `JobsOk` the tables after `claim_jobs` meet `JobsOk` again, whatever the
-- draws, the request and the fate of the transaction.
pub claim_jobs-JobsOk :
    (fate : Fate) (entropy : ℕ → Option Bytes) (db : Db) (request : ClaimRequest)
    → JobsOk db
    → JobsOk (claim_jobs fate entropy db request).1
unfolding claim_jobs
claim_jobs-JobsOk fate entropy db request h =
    run_claim-JobsOk fate entropy db request (check_request request) h
