-- ===== src/Store/Claims/Readiness.antt =====
-- The jobs that `plan_leases` of src/store/jobs.rs proposes to lease, described by their columns.
use minisqlite.Base.{
  ℕ, ℤ, ◌≤◌, ◌<◌, ◌≤ℤ◌, ◌≡◌, ◌≢◌, ◌⊎◌, refl, inl, inr, leb_ℤ, unwrap_or, i64_min, bytes_eq_iff,
  bytes_eq_refl, Bytes, Option, none, some, is_some, length, All, All-mono, arith, true, false, ok,
}
use minisqlite.Jobs.{ClaimRequest}
use minisqlite.Jobs.State.{
  JobState, pending, leased, retry_wait, uncertain, succeeded, dead, cancelled, is_active,
  is_terminal,
}
use minisqlite.Store.Schema.{Db, JobRow, check_row}
use minisqlite.Store.Jobs.Table.{load_job}
use minisqlite.Store.Jobs.Invariant.{JobsOk, RowOk, load_job-RowOk}
use minisqlite.Store.Jobs.Heads.{After}
use minisqlite.Store.Claims.Plan.{
  ProposedLease, Plan, is_ready, state_ready, ready_head, partition_head, plan_leases,
}
use minisqlite.Store.Claims.Leases.{Grantable, plan_leases-Grantable}
use minisqlite.Store.Claims.Preserve.{
  if_ready-some, state_ready-waiting, head_found, IsHead-partition_head,
}

-- No nonterminal row of the job's partition was enqueued before it.
pub record NotBefore (job x : JobRow) : Type 0 where
  pub order :
      x.queue ≡ job.queue
      → x.partition_key ≡ job.partition_key
      → is_terminal x.state ≡ false
      → job.enqueue_sequence ≤ x.enqueue_sequence

-- A job that may be leased for a request, and its token.
pub record Ready (db : Db) (request : ClaimRequest) (l : ProposedLease) : Type 0 where
  pub stored : load_job db l.job.job_id ≡ some l.job
  pub queue : l.job.queue ≡ request.queue
  pub waits : (l.job.state ≡ pending) ⊎ (l.job.state ≡ retry_wait)
  pub due : l.job.not_before_ms ≤ℤ request.now_ms
  pub retry :
      l.job.state ≡ retry_wait → (t : ℤ) × (l.job.retry_after_ms ≡ some t) × (t ≤ℤ request.now_ms)
  pub left : l.job.attempt < l.job.max_attempts
  pub oldest : All (NotBefore l.job) db.jobs
  pub token : l.lease_token ≢ 0

state_ready-waits :
    (st : JobState) (now : ℤ) (job : JobRow)
    → state_ready st now job ≡ true
    → ((st ≡ pending) ⊎ (st ≡ retry_wait)) × (job.not_before_ms ≤ℤ now)
state_ready-waits pending now job e = (inl refl, ground (arith, e))
state_ready-waits retry_wait now job e = (inr refl, ground (arith, e))
state_ready-waits leased now job e = cc
state_ready-waits uncertain now job e = cc
state_ready-waits succeeded now job e = cc
state_ready-waits dead now job e = cc
state_ready-waits cancelled now job e = cc

retry_due :
    (o : Option ℤ) (now : ℤ)
    → is_some o ≡ true
    → leb_ℤ (unwrap_or o i64_min) now ≡ true
    → (t : ℤ) × (o ≡ some t) × (t ≤ℤ now)
retry_due none now s e = cc
retry_due (some t) now s e = (t, refl, ground (arith, e))

retry_ready :
    (job : JobRow) (now : ℤ)
    → RowOk job
    → state_ready job.state now job ≡ true
    → job.state ≡ retry_wait
    → (t : ℤ) × (job.retry_after_ms ≡ some t) × (t ≤ℤ now)
unfolding check_row
retry_ready job now h e s =
    let c = h.checks in
    let set : is_some job.retry_after_ms ≡ true = ground (arith, rw s at c) in
    let due : leb_ℤ (unwrap_or job.retry_after_ms i64_min) now ≡ true = ground (arith, rw s at e) in
    retry_due job.retry_after_ms now set due

nonterminal : (st : JobState) → is_terminal st ≡ false → is_active st ≡ true
nonterminal st e = ground (arith, e)

After-NotBefore : (job x : JobRow) → After job x → NotBefore job x
After-NotBefore job x a = record {
  order = λ q p t.
      a.order (nonterminal x.state t)
        (rw (q, p, bytes_eq_refl job.queue, bytes_eq_refl job.partition_key) refl);
}

module _ (db : Db) (h : JobsOk db) (request : ClaimRequest) where
  Grantable-Ready : (l : ProposedLease) → Grantable db request l → Ready db request l
  unfolding ready_head is_ready
  Grantable-Ready l g =
      let r =
        if_ready-some request.now_ms (partition_head db request.queue g.partition) l.job g.head in
      let f = head_found db h request g.partition l.job r.0 in
      let w = state_ready-waits l.job.state request.now_ms l.job r.1 in
      let ok' = load_job-RowOk db l.job l.job.job_id h f.0 in
      record {
        stored = f.0;
        queue = (bytes_eq_iff l.job.queue request.queue).0 (ground (arith, f.1));
        waits = w.0;
        due = w.1;
        retry = retry_ready l.job request.now_ms ok' r.1;
        left = ok'.left (state_ready-waiting l.job.state request.now_ms l.job r.1);
        oldest =
            All-mono _ _ db.jobs (After-NotBefore l.job)
              (IsHead-partition_head db h request g.partition l.job r.0);
        token = λ e. ground (arith, e, g.token);
      }

-- On tables that meet `JobsOk` each planned lease is of a stored job of the queue that is
-- pending or waits for a retry, whose `not_before_ms` and, for a retry, `retry_after_ms` have
-- come, that has an attempt left, and before which no nonterminal job of its partition was
-- enqueued; its token is not the zero id, and there are at most as many leases as were asked
-- for.
pub plan_leases-Ready :
    (entropy : ℕ → Option Bytes) (db : Db) (request : ClaimRequest) (plan : Plan)
    → JobsOk db
    → plan_leases entropy db request ≡ ok plan
    → All (Ready db request) plan.0 × (length plan.0 ≤ request.limit)
plan_leases-Ready entropy db request plan h e =
    let g = plan_leases-Grantable entropy db request plan e in
    (All-mono _ _ plan.0 (Grantable-Ready db h request) g.0, g.1)
