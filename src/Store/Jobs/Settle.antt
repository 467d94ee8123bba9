-- ===== src/Store/Jobs/Settle.antt =====
-- The job operations of src/store/jobs.rs and the invariant of the job tables.
use minisqlite.Base.{
  ℤ, ◌≡◌, refl, ap, sym, subst, ◌∙◌, Bool, true, false, if◌then◌else◌, is_some, Bytes, Option, none,
  some, arith, ok, map_err, ◌>>=◌, ==_refl, Ensures, Ensures-ok, Ensures-bind, Ensures-guard,
  Ensures-if, Ensures-map_err,
}
use minisqlite.Id.{Id128}
use minisqlite.Errors.{Error}
use minisqlite.Jobs.{
  JobAck, JobFailure, JobCancellation, JobResolution, Resolution, retry, mark_succeeded, mark_dead,
}
use minisqlite.Jobs.State.{
  JobState, pending, retry_wait, succeeded, dead, cancelled, is_active, is_terminal,
  can_transition_to,
}
use minisqlite.Sql.{exists_row}
use minisqlite.Sql.Rows.{find_row-exists}
use minisqlite.Store.Schema.{Db, JobRow, check_row}
use minisqlite.Store.Jobs.Table.{
  load_job, require_job, ensure_transition, ensure_lease_token, set_terminal, set_nonterminal,
  to_nonterminal, update_job, has_job_id,
}
use minisqlite.Store.Jobs.Ops.{
  apply_ack, apply_fail, apply_cancel, apply_resolve, resolve, ensure_cancel_token, is_exhausted,
  retry_time, with_summary, resolved_dead, retry_exhausted,
}
use minisqlite.Store.Jobs.Rows.{write_row, find-put, update_job-write}
use minisqlite.Store.Jobs.Invariant.{JobsOk, load_job-RowOk, load_job-id, write-JobsOk}
use minisqlite.Store.Jobs.Preserve.{
  Idle, set_terminal-JobsOk, set_nonterminal-write, set_nonterminal-JobsOk,
}

-- Where the operations may move a job that stays nonterminal.
pub to_pending :
    (job : JobRow)
    → can_transition_to job.state pending ≡ true
    → is_exhausted job ≡ false
    → Idle job pending none
unfolding can_transition_to
to_pending job g n = record {
  target = refl;
  unleased = refl;
  due = refl;
  from = ground (arith, g);
  claimed = ground (arith, g);
  left = λ _. ground (arith, n);
}

to_retry :
    (job : JobRow) (at : ℤ)
    → can_transition_to job.state retry_wait ≡ true
    → is_exhausted job ≡ false
    → Idle job retry_wait (some at)
unfolding can_transition_to
to_retry job at g n = record {
  target = refl;
  unleased = refl;
  due = refl;
  from = ground (arith, g);
  claimed = ground (arith, g);
  left = λ _. ground (arith, n);
}

-- The job that an operation names.
module _ {db : Db} (h : JobsOk db) where
  pub found :
      (job_id : Id128) (job : JobRow)
      → load_job db job_id ≡ some job
      → load_job db job.job_id ≡ some job
  found job_id job e = subst (λ i. load_job db i ≡ some job) (sym (load_job-id db job job_id e)) e

  required :
      (job_id : Id128) (job : JobRow)
      → require_job db job_id ≡ ok job
      → load_job db job.job_id ≡ some job
  unfolding require_job
  required job_id job e = found job_id job (ground (arith, e))

  terminal :
      (job : JobRow) (st : JobState) (now : ℤ) (t : Id128) (d s : Option Bytes)
      → load_job db job.job_id ≡ some job
      → is_terminal st ≡ true
      → Ensures JobsOk (map_err Error.storage (set_terminal db job st now t d s))
  terminal job st now t d s e k =
      Ensures-map_err Error.storage _ (set_terminal-JobsOk db job h e st now t d s k)

  pub apply_ack-JobsOk :
      (t : Id128) (now : ℤ) (ack : JobAck) → Ensures JobsOk (apply_ack db t now ack)
  unfolding apply_ack
  apply_ack-JobsOk t now ack = Ensures-bind (require_job db ack.job_id) _ (λ job e.
      Ensures-bind (ensure_transition job succeeded) _ (λ _ _.
        Ensures-bind (ensure_lease_token job ack.lease_token) _
          (λ _ _. terminal job succeeded now t ack.result_digest none (required _ job e) refl)))

  pub apply_cancel-JobsOk :
      (t : Id128) (now : ℤ) (c : JobCancellation) → Ensures JobsOk (apply_cancel db t now c)
  unfolding apply_cancel
  apply_cancel-JobsOk t now c = Ensures-bind (require_job db c.job_id) _ (λ job e.
      Ensures-bind (ensure_transition job cancelled) _ (λ _ _.
        Ensures-bind (ensure_cancel_token job c.lease_token) _
          (λ _ _. terminal job cancelled now t none none (required _ job e) refl)))

  resolve-JobsOk :
      (t : Id128) (now : ℤ) (job : JobRow) (r : Resolution)
      → load_job db job.job_id ≡ some job
      → Ensures JobsOk (resolve db t now job r)
  unfolding resolve ensure_transition
  resolve-JobsOk t now job mark_succeeded e =
      Ensures-guard (can_transition_to job.state succeeded) _ _
        (λ _. terminal job succeeded now t none none e refl)
  resolve-JobsOk t now job mark_dead e =
      Ensures-guard (can_transition_to job.state dead) _ _
        (λ _. terminal job dead now t none (some resolved_dead) e refl)
  resolve-JobsOk t now job retry e =
      Ensures-if (is_exhausted job) _ _
        (λ _.
          Ensures-guard (can_transition_to job.state dead) _ _
            (λ _. terminal job dead now t none (some retry_exhausted) e refl))
        (λ n. Ensures-guard (can_transition_to job.state pending) _ _ (λ g.
          Ensures-map_err Error.storage _ (
            Ensures-ok _ _ (set_nonterminal-write db job h e pending none t (to_pending job g n))
              (set_nonterminal-JobsOk db job h e pending none t (to_pending job g n)))))

  pub apply_resolve-JobsOk :
      (t : Id128) (now : ℤ) (r : JobResolution) → Ensures JobsOk (apply_resolve db t now r)
  unfolding apply_resolve
  apply_resolve-JobsOk t now r =
      Ensures-bind (require_job db r.job_id) _
        (λ job e. resolve-JobsOk t now job r.resolution (required _ job e))

-- The last statement of `apply_fail` finds the row that the one before it wrote.
summary_checks :
    (r : JobRow) (summary : Bytes) → check_row r ≡ true → check_row (with_summary summary r) ≡ true
unfolding check_row with_summary
summary_checks r summary h = h

pub load_job-write :
    (db : Db) (r r' : JobRow)
    → r'.job_id ≡ r.job_id
    → load_job db r.job_id ≡ some r
    → load_job (write_row r' db) r.job_id ≡ some r'
unfolding load_job write_row
load_job-write db r r' k e =
    let x : exists_row (has_job_id r'.job_id) db.jobs ≡ true =
      sym (find_row-exists (has_job_id r'.job_id) db.jobs) ∙ rw k (ap is_some e) in
    find-put r' r.job_id db.jobs x ∙ rw (k, ==_refl r.job_id) refl

module _ (db : Db) (r : JobRow) (h : JobsOk db) (e : load_job db r.job_id ≡ some r) where
  summarised :
      (summary : Bytes)
      → is_active r.state ≡ true
      → Ensures JobsOk (update_job r.job_id (with_summary summary) db)
  unfolding with_summary
  summarised summary a =
      let k = load_job-RowOk db r r.job_id h e in
      let c = summary_checks r summary k.checks in
      Ensures-ok _ _ (update_job-write r.job_id (with_summary summary) db r h.chain e refl c) (
        write-JobsOk db r (with_summary summary r) h e
          (record {
            id = refl;
            sequence = refl;
            queue = refl;
            partition_key = refl;
            active = λ b. b;
            fresh = λ b f. f;
          })
          (record { checks = c; attempts = k.attempts; left = k.left; word = k.word }) a)

module _ (db : Db) (job : JobRow) (h : JobsOk db) (e : load_job db job.job_id ≡ some job) where
  retried :
      (t : Id128) (at : ℤ) (summary : Bytes)
      → Idle job retry_wait (some at)
      → Ensures JobsOk (
          map_err Error.storage (set_nonterminal db job.job_id retry_wait (some at) t) >>= λ db'.
          map_err Error.storage (update_job job.job_id (with_summary summary) db'))
  unfolding to_nonterminal
  retried t at summary i =
      let w = to_nonterminal retry_wait (some at) t job in
      rw (set_nonterminal-write db job h e retry_wait (some at) t i) (
        Ensures-map_err Error.storage _ (
          summarised (write_row w db) w (set_nonterminal-JobsOk db job h e retry_wait (some at) t i)
            (load_job-write db job w refl e) summary refl))

  failed :
      (t : Id128) (now : ℤ) (f : JobFailure)
      → (b : Bool) → is_exhausted job ≡ b
      → can_transition_to job.state (if b then dead else retry_wait) ≡ true
      → Ensures JobsOk (
          if b
          then map_err Error.storage (set_terminal db job dead now t none (some f.error_summary))
          else (do
            retry_after ← retry_time now f.retry_after_ms
            db' ←
                map_err Error.storage
                  (set_nonterminal db job.job_id retry_wait (some retry_after) t)
            map_err Error.storage (update_job job.job_id (with_summary f.error_summary) db')))
  failed t now f true n g = terminal h job dead now t none _ e refl
  failed t now f false n g =
      Ensures-bind (retry_time now f.retry_after_ms) _
        (λ at _. retried t at f.error_summary (to_retry job at g n))

module _ {db : Db} (h : JobsOk db) where
  pub apply_fail-JobsOk :
      (t : Id128) (now : ℤ) (f : JobFailure) → Ensures JobsOk (apply_fail db t now f)
  unfolding apply_fail ensure_transition
  apply_fail-JobsOk t now f = Ensures-bind (require_job db f.job_id) _ (λ job e.
      Ensures-guard _ _ _ (λ g.
        Ensures-bind (ensure_lease_token job f.lease_token) _
          (λ _ _. failed db job h (required h _ job e) t now f (is_exhausted job) refl g)))
