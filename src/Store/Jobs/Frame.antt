-- ===== src/Store/Jobs/Frame.antt =====
-- The `transactions` table under the job operations of src/store/jobs.rs.
use minisqlite.Base.{
  ℤ, ◌≡◌, refl, ◌==◌, Option, none, some, Bytes, Result, map_err, ◌>>=◌, ◌∙◌, Ensures, Ensures-bind,
  Ensures-ok, Ensures-guard, Ensures-reject_if, Ensures-map_err, Ensures-if, if◌then◌else◌,
}
use minisqlite.Id.{Id128}
use minisqlite.Errors.{Error}
use minisqlite.Jobs.{
  JobAck, JobFailure, JobCancellation, JobResolution, Resolution, retry, mark_succeeded, mark_dead,
}
use minisqlite.Jobs.State.{JobState, pending, retry_wait, succeeded, dead, cancelled}
use minisqlite.Projection.{}
use minisqlite.Sql.{select, exists_row, all_rows}
use minisqlite.Transaction.{}
use minisqlite.Store.Schema.{Db, JobRow, check_row}
use minisqlite.Store.Projections.{}
use minisqlite.Store.Jobs.Table.{
  require_job, ensure_transition, ensure_lease_token, has_job_id, has_transaction_id, update_job,
  set_terminal, set_nonterminal, drain_partition_if_empty, insert_job,
}
use minisqlite.Store.Jobs.Ops.{
  apply_ack, apply_fail, apply_cancel, apply_resolve, resolve, is_exhausted, retry_time,
  with_summary, retry_exhausted, resolved_dead, ensure_cancel_token,
}
use minisqlite.Store.Commit.Apply.{}

abbrev pub Same : Db → Db → Type 0
Same db db' = db'.transactions ≡ db.transactions

pub bind-Same :
    {E : Type 0} (db : Db) (m : Result Db E) (f : Db → Result Db E)
    → Ensures (Same db) m
    → ((db' : Db) → Ensures (Same db') (f db'))
    → Ensures (Same db) (m >>= f)
bind-Same db m f h k =
    Ensures-bind m f (λ db' e. record { at = λ d q. (k db').at d q ∙ h.at db' e })

pub update_job-Same :
    (job_id : Id128) (f : JobRow → JobRow) (db : Db) → Ensures (Same db) (update_job job_id f db)
unfolding update_job
update_job-Same job_id f db =
    Ensures-if (all_rows (λ r. check_row (f r)) (select (has_job_id job_id) db.jobs)) _ _
      (λ _. Ensures-ok _ _ refl refl) (λ _. record { at = λ a e. cc })

pub set_terminal-Same :
    (db : Db) (job : JobRow) (st : JobState) (now : ℤ) (t : Id128) (d s : Option Bytes)
    → Ensures (Same db) (set_terminal db job st now t d s)
unfolding set_terminal drain_partition_if_empty
set_terminal-Same db job st now t d s =
    bind-Same db _ _ (update_job-Same job.job_id _ db) (λ db'. Ensures-ok _ _ refl refl)

pub set_nonterminal-Same :
    (db : Db) (job_id : Id128) (st : JobState) (at : Option ℤ) (t : Id128)
    → Ensures (Same db) (set_nonterminal db job_id st at t)
unfolding set_nonterminal
set_nonterminal-Same db job_id st at t = update_job-Same job_id _ db

module _ (db : Db) where
  terminal :
      (job : JobRow) (st : JobState) (now : ℤ) (t : Id128) (d s : Option Bytes)
      → Ensures (Same db) (map_err Error.storage (set_terminal db job st now t d s))
  terminal job st now t d s =
      Ensures-map_err Error.storage _ (set_terminal-Same db job st now t d s)

  pub apply_ack-Same : (t : Id128) (now : ℤ) (a : JobAck) → Ensures (Same db) (apply_ack db t now a)
  unfolding apply_ack
  apply_ack-Same t now a = Ensures-bind (require_job db a.job_id) _ (λ job _.
      Ensures-bind (ensure_transition job succeeded) _ (λ _ _.
        Ensures-bind (ensure_lease_token job a.lease_token) _
          (λ _ _. terminal job succeeded now t a.result_digest none)))

  pub apply_cancel-Same :
      (t : Id128) (now : ℤ) (c : JobCancellation) → Ensures (Same db) (apply_cancel db t now c)
  unfolding apply_cancel
  apply_cancel-Same t now c = Ensures-bind (require_job db c.job_id) _ (λ job _.
      Ensures-bind (ensure_transition job cancelled) _ (λ _ _.
        Ensures-bind (ensure_cancel_token job c.lease_token) _
          (λ _ _. terminal job cancelled now t none none)))

  retried :
      (job : JobRow) (t : Id128) (at : ℤ) (s : Bytes)
      → Ensures (Same db) (
          map_err Error.storage (set_nonterminal db job.job_id retry_wait (some at) t) >>= λ db'.
          map_err Error.storage (update_job job.job_id (with_summary s) db'))
  retried job t at s =
      bind-Same db _ _
        (Ensures-map_err Error.storage _
          (set_nonterminal-Same db job.job_id retry_wait (some at) t))
        (λ db'. Ensures-map_err Error.storage _ (update_job-Same job.job_id (with_summary s) db'))

  pub apply_fail-Same :
      (t : Id128) (now : ℤ) (f : JobFailure) → Ensures (Same db) (apply_fail db t now f)
  unfolding apply_fail
  apply_fail-Same t now f = Ensures-bind (require_job db f.job_id) _ (λ job _.
      Ensures-bind (ensure_transition job (if is_exhausted job then dead else retry_wait)) _ (λ _ _.
        Ensures-bind (ensure_lease_token job f.lease_token) _ (λ _ _.
          Ensures-if (is_exhausted job) _ _
            (λ _. terminal job dead now t none (some f.error_summary))
            (λ _.
              Ensures-bind (retry_time now f.retry_after_ms) _
                (λ at _. retried job t at f.error_summary)))))

  resolve-Same :
      (t : Id128) (now : ℤ) (job : JobRow) (r : Resolution)
      → Ensures (Same db) (resolve db t now job r)
  unfolding resolve
  resolve-Same t now job mark_succeeded =
      Ensures-bind (ensure_transition job succeeded) _
        (λ _ _. terminal job succeeded now t none none)
  resolve-Same t now job mark_dead = Ensures-bind (ensure_transition job dead) _ (λ _ _.
      Ensures-map_err Error.storage _
        (set_terminal-Same db job dead now t none (some resolved_dead)))
  resolve-Same t now job retry =
      Ensures-if (is_exhausted job) _ _
        (λ _. Ensures-bind (ensure_transition job dead) _ (λ _ _.
          Ensures-map_err Error.storage _
            (set_terminal-Same db job dead now t none (some retry_exhausted))))
        (λ _. Ensures-bind (ensure_transition job pending) _ (λ _ _.
          Ensures-map_err Error.storage _ (set_nonterminal-Same db job.job_id pending none t)))

  pub apply_resolve-Same :
      (t : Id128) (now : ℤ) (r : JobResolution) → Ensures (Same db) (apply_resolve db t now r)
  unfolding apply_resolve
  apply_resolve-Same t now r =
      Ensures-bind (require_job db r.job_id) _ (λ job _. resolve-Same t now job r.resolution)

  pub insert_job-Same : (r : JobRow) → Ensures (Same db) (insert_job db r)
  unfolding insert_job
  insert_job-Same r = Ensures-reject_if (exists_row (has_job_id r.job_id) db.jobs) _ _ (λ _.
      Ensures-reject_if (exists_row (λ s. s.enqueue_sequence == r.enqueue_sequence) db.jobs) _ _
        (λ _.
          Ensures-guard (exists_row (has_transaction_id r.enqueue_transaction_id) db.transactions) _
            _ (λ _. Ensures-guard (check_row r) _ _ (λ _. Ensures-ok _ _ refl refl))))
