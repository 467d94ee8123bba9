-- ===== src/Store/Claims/Preserve.antt =====
-- `claim_jobs` of src/store/jobs.rs and the invariant of the job tables.
use minisqlite.Base.{
  ℕ, ℤ, pos, ◌≤◌, ◌≡◌, refl, sym, ap, subst, ◌∙◌, true, false, List, [], ◌∷◌, map, Bytes, Option,
  none, some, some-injective, All, All-mono, All-zip, arith, Bool-cases, bytes_eq_iff, inl, inr, ok,
  map_err, ◌>>=◌, Ensures, Ensures-bind, Ensures-ok, Ensures-map_err,
}
use minisqlite.Id.{Id128}
use minisqlite.Errors.{ClaimError}
use minisqlite.Sql.{select, find_row}
use minisqlite.Sql.Rows.{All-select, select-All, All-of_select}
use minisqlite.Sql.Order.{
  Apart, Apart-select, Apart-order_by, Apart-limit, All-limit, All-order_by, order_by-least,
  head-All, head-limit,
}
use minisqlite.Jobs.{ClaimRequest}
use minisqlite.Jobs.State.{
  JobState, pending, leased, retry_wait, uncertain, succeeded, dead, cancelled, is_active,
  is_leased,
}
use minisqlite.Store.Schema.{Db, JobRow}
use minisqlite.Store.Jobs.Table.{active_in, load_job, has_job_id}
use minisqlite.Store.Jobs.Read.{by_sequence}
use minisqlite.Store.Jobs.Rows.{same_partition}
use minisqlite.Store.Jobs.Invariant.{JobsOk, is_waiting, load_job-RowOk}
use minisqlite.Store.Jobs.Heads.{After, IsHead, Differ, Differ-sym, Chain-Apart, Chain-self}
use minisqlite.Store.Commit.SameJobs.{SameJobs, SameJobs-JobsOk}
use minisqlite.Store.Commit.Preserve.{insert_transaction-SameJobs}
use minisqlite.Store.Claims.Plan.{
  MaintenanceAction, ProposedLease, action_of, is_expired, by_expiry, maintenance_limit,
  plan_maintenance, partition_head, ready_head, is_ready, if_ready, state_ready,
}
use minisqlite.Store.Claims.Leases.{Grantable}
use minisqlite.Store.Claims.Run.{
  Written, insert_claim_transaction, apply_maintenance, grant_all, move_cursor,
}
use minisqlite.Store.Claims.Granting.{LeaseOk, grant_all-JobsOk}
use minisqlite.Store.Claims.Maintaining.{Due, Unleased, apply_maintenance-Kept}

-- The planned repairs are of expired leases, of distinct jobs.
All-map {κ} :
    {B : Type 0} (P : B → Type κ) (f : JobRow → B) (xs : List JobRow)
    → All (λ x. P (f x)) xs
    → All P (map f xs)
All-map P f [] h = tt
All-map P f (x ∷ xs) h = (h.0, All-map P f xs h.1)

Apart-map :
    (xs : List JobRow) → Apart Differ xs → Apart (λ a b. Differ a.job b.job) (map action_of xs)
unfolding action_of
Apart-map [] h = tt
Apart-map (x ∷ xs) h =
    (All-map (λ (b : MaintenanceAction). Differ x b.job) action_of xs h.0, Apart-map xs h.1)

-- A ready job waits for a claim.
pub state_ready-waiting :
    (st : JobState) (now : ℤ) (job : JobRow) → state_ready st now job ≡ true → is_waiting st ≡ true
state_ready-waiting pending now job e = refl
state_ready-waiting retry_wait now job e = refl
state_ready-waiting leased now job e = cc
state_ready-waiting uncertain now job e = cc
state_ready-waiting succeeded now job e = cc
state_ready-waiting dead now job e = cc
state_ready-waiting cancelled now job e = cc

waiting_flags :
    (st : JobState) → is_waiting st ≡ true → (is_active st ≡ true) × (is_leased st ≡ false)
waiting_flags st e = ground (arith, e)

pub if_ready-some :
    (now : ℤ) (o : Option JobRow) (job : JobRow)
    → if_ready now o ≡ some job
    → (o ≡ some job) × (is_ready now job ≡ true)
if_ready-some now none job e = cc
if_ready-some now (some r) job e = elim (Bool-cases (is_ready now r)) [
  | inl t ↦
      let same : r ≡ job = some-injective (rw t at e) in
      (ap some same, subst (λ x. is_ready now x ≡ true) same t)
  | inr t ↦ cc (rw t at e)
]

-- A row in the partition of another is in the partition that was searched.
in_same :
    (job x : JobRow) (q p : Bytes)
    → active_in q p job ≡ true
    → is_active x.state ≡ true
    → same_partition x job ≡ true
    → active_in q p x ≡ true
in_same job x q p a t s =
    let eq : job.queue ≡ q = (bytes_eq_iff job.queue q).0 (ground (arith, a)) in
    let ep : job.partition_key ≡ p = (bytes_eq_iff job.partition_key p).0 (ground (arith, a)) in
    rw (← eq, ← ep) (ground (arith, t, s))

module _ (db : Db) (h : JobsOk db) (request : ClaimRequest) where
  pub plan_maintenance-Due : All (Due db) (plan_maintenance db request)
  unfolding plan_maintenance load_job action_of
  plan_maintenance-Due = All-map (Due db) action_of _ (
      All-limit _ maintenance_limit _ (
        All-order_by _ by_expiry _ (
          All-zip _ _ _ (select (is_expired request) db.jobs)
            (λ r e s. record { found = e; leased = ground (arith, s); target = refl })
            (All-select _ (is_expired request) db.jobs (Chain-self db.jobs h.chain))
            (select-All (is_expired request) db.jobs))))

  pub plan_maintenance-Apart : Apart (λ a b. Differ a.job b.job) (plan_maintenance db request)
  unfolding plan_maintenance
  plan_maintenance-Apart = Apart-map _ (
      Apart-limit Differ maintenance_limit _ (
        Apart-order_by Differ Differ-sym by_expiry _
          (Apart-select Differ (is_expired request) db.jobs (Chain-Apart db.jobs h.chain))))

  -- The head of a partition: it stands in the table, and no nonterminal job comes before it.
  pub head_found :
      (p : Bytes) (job : JobRow)
      → partition_head db request.queue p ≡ some job
      → (load_job db job.job_id ≡ some job) × (active_in request.queue p job ≡ true)
  unfolding partition_head load_job
  head_found p job e =
      head-All
        (λ r.
          (find_row (has_job_id r.job_id) db.jobs ≡ some r) × (active_in request.queue p r ≡ true))
        _ job
        (All-limit _ (pos 1) _ (
          All-order_by _ by_sequence _ (
            All-zip _ _ _ (select (active_in request.queue p) db.jobs) (λ r a b. (a, b))
              (All-select _ (active_in request.queue p) db.jobs (Chain-self db.jobs h.chain))
              (select-All (active_in request.queue p) db.jobs))))
        e

  pub IsHead-partition_head :
      (p : Bytes) (job : JobRow) → partition_head db request.queue p ≡ some job → IsHead db.jobs job
  unfolding partition_head
  IsHead-partition_head p job e =
      let a = (head_found p job e).1 in
      All-mono (λ x. active_in request.queue p x ≡ true → job.enqueue_sequence ≤ x.enqueue_sequence)
        (After job) db.jobs
        (λ x k. record { order = λ t s. k (in_same job x request.queue p a t s) })
        (All-of_select _ (active_in request.queue p) db.jobs
          (order_by-least (λ r. r.enqueue_sequence) _ job (sym (head-limit _) ∙ e)))

  pub Grantable-Unleased : (l : ProposedLease) → Grantable db request l → Unleased db l
  unfolding ready_head is_ready
  Grantable-Unleased l g =
      let r =
        if_ready-some request.now_ms (partition_head db request.queue g.partition) l.job g.head in
      let w = state_ready-waiting l.job.state request.now_ms l.job r.1 in
      let f = waiting_flags l.job.state w in
      let e = (head_found g.partition l.job r.0).0 in
      record {
        lease = record {
          row = l.job;
          found = e;
          active = f.0;
          head = IsHead-partition_head g.partition l.job r.0;
          left = (load_job-RowOk db l.job l.job.job_id h e).left w;
        };
        idle = f.1;
      }

insert_claim_transaction-SameJobs :
    (db : Db) (t : Id128) (request : ClaimRequest) (n : ℕ)
    → Ensures (SameJobs db) (insert_claim_transaction db t request n)
unfolding insert_claim_transaction
insert_claim_transaction-SameJobs db t request n = insert_transaction-SameJobs db _

pub move_cursor-SameJobs :
    (queue : Bytes) (o : Option Bytes) (db : Db) → SameJobs db (move_cursor queue o db)
unfolding move_cursor
move_cursor-SameJobs queue none db = (refl, refl)
move_cursor-SameJobs queue (some p) db = (refl, refl)

-- The facts about the plan do not depend on the tables but those of the jobs.
Due-same : (db d : Db) → SameJobs db d → (a : MaintenanceAction) → Due db a → Due d a
unfolding load_job
Due-same db d s a k = record { found = rw s.0 k.found; leased = k.leased; target = k.target }

Unleased-same : (db d : Db) → SameJobs db d → (l : ProposedLease) → Unleased db l → Unleased d l
unfolding load_job
Unleased-same db d s l u = record {
  lease = record {
    row = u.lease.row;
    found = rw s.0 u.lease.found;
    active = u.lease.active;
    head = rw s.0 u.lease.head;
    left = u.lease.left;
  };
  idle = u.idle;
}

-- What a claim has written, if anything, meets the invariant.
unfoldable pub WrittenOk : Written → Type 0
WrittenOk none = Unit
WrittenOk (some (t, jobs, d)) = JobsOk d

module _ (db : Db) (h : JobsOk db) (request : ClaimRequest) where
  pub written :
      (expiry : ℤ) (t : Id128) (n : ℕ) (ms : List MaintenanceAction) (ls : List ProposedLease)
      (o : Option Bytes) (r : Db → Written)
      → All (Due db) ms
      → Apart (λ a b. Differ a.job b.job) ms
      → All (Unleased db) ls
      → ((d : Db) → JobsOk d → WrittenOk (r d))
      → Ensures WrittenOk (
          map_err ClaimError.storage (insert_claim_transaction db t request n) >>= λ db₁.
          apply_maintenance db₁ request t ms >>= λ db₂.
          map_err ClaimError.storage (grant_all db₂ request expiry t ls) >>= λ db₃. ok (r db₃))
  written expiry t n ms ls o r due apart unleased k =
      Ensures-bind (map_err ClaimError.storage (insert_claim_transaction db t request n)) _
        (λ d₁ e₁.
          let s =
            (Ensures-map_err ClaimError.storage _
                (insert_claim_transaction-SameJobs db t request n)).at
              d₁ e₁ in
          Ensures-bind (apply_maintenance d₁ request t ms) _ (λ d₂ e₂.
            let m =
              (apply_maintenance-Kept request t ms ls d₁ (SameJobs-JobsOk db d₁ h s)
                  (All-mono (Due db) (Due d₁) ms (Due-same db d₁ s) due) apart
                  (All-mono (Unleased db) (Unleased d₁) ls (Unleased-same db d₁ s) unleased)).at
                d₂ e₂ in
            Ensures-bind (map_err ClaimError.storage (grant_all d₂ request expiry t ls)) _ (λ d₃ e₃.
              Ensures-ok _ _ refl (
                k d₃ (
                  (Ensures-map_err ClaimError.storage _ (
                      grant_all-JobsOk request expiry t ls d₂ m.0
                        (All-mono (Unleased d₂) (LeaseOk d₂) ls (λ l u. u.lease) m.1))).at
                    d₃ e₃)))))
