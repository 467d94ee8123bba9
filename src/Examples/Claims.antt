-- ===== src/Examples/Claims.antt =====
-- Claims on concrete tables.
use minisqlite.Base.{
  ℕ, true, false, arith, ◌≡◌, ◌≤◌, refl, pos, [], ◌∷◌, none, some, ok, length, All,
}
use minisqlite.Store.Claims.Progress.{leases_job, plan_leases-leases_job}
use minisqlite.Store.Schema.{commits, unknown_kept, check_row}
use minisqlite.Sql.{select, find_row, exists_row}
use minisqlite.Store.Claims.Plan.{Plan, plan_leases, ready_head, partitions_of}
use minisqlite.Store.Claims.Run.{claim_jobs}
use minisqlite.Store.Claims.Readiness.{Ready, plan_leases-Ready}
use minisqlite.Store.Claims.Outcomes.{is_absent, claim_jobs-Recovered}
use minisqlite.Store.Claims.Recover.{recover_claim}
use minisqlite.Store.Jobs.Invariant.{JobsOk}
use minisqlite.Store.Claims.Claimed.{claim_jobs-JobsOk}
use minisqlite.Examples.Data.{db, db-JobsOk, waiting_db, waiting_job, request, draws, partition}

abbrev plan : Plan
plan = (record { job = waiting_job; lease_token = 256 } ∷ [], some partition)

claim_jobs-JobsOk_example : JobsOk (claim_jobs commits draws db request).1
claim_jobs-JobsOk_example = claim_jobs-JobsOk commits draws db request db-JobsOk

waiting_db-JobsOk : JobsOk waiting_db
unfolding exists_row check_row
waiting_db-JobsOk = record {
  rows = (
    record { checks = refl; attempts = omega arith; left = λ w. omega arith; word = omega arith },
    tt,
  );
  chain = (tt, tt);
  partitions = λ q p. refl;
}

plan_leases-leases_job_example :
    (p : Plan) × (plan_leases draws waiting_db request ≡ ok p) × (leases_job waiting_job p ≡ true)
unfolding ready_head find_row minisqlite.Sql.order_by select minisqlite.Base.bytes_eq
    minisqlite.Sql.limit_rows partitions_of
plan_leases-leases_job_example =
    plan_leases-leases_job waiting_db request draws partition waiting_job waiting_db-JobsOk
      (λ n. refl) (omega arith) refl

plan_leases-Ready_example : All (Ready waiting_db request) plan.0 × (length plan.0 ≤ 4)
unfolding plan_leases find_row minisqlite.Sql.order_by select minisqlite.Base.bytes_eq
    minisqlite.Sql.limit_rows minisqlite.Id.from_bytes
plan_leases-Ready_example = plan_leases-Ready draws waiting_db request plan waiting_db-JobsOk refl

claim_jobs-Recovered_example :
    is_absent (recover_claim (claim_jobs unknown_kept draws waiting_db request).1 257 (pos 50))
    ≡ false
unfolding claim_jobs minisqlite.Base.checked_add find_row minisqlite.Sql.order_by select
    minisqlite.Base.bytes_eq minisqlite.Sql.limit_rows exists_row minisqlite.Id.from_bytes
    minisqlite.Sql.max_of minisqlite.Sql.all_rows check_row
claim_jobs-Recovered_example =
    claim_jobs-Recovered (pos 50) unknown_kept draws waiting_db request tt
