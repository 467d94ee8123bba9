-- ===== src/Store/Jobs/Refusals.antt =====
-- What the job operations of src/store/jobs.rs refuse, and what a resolution accepts.
use minisqlite.Base.{
  ℤ, ◌≡◌, refl, true, false, if◌then◌else◌, Bytes, Option, none, some, ok, err, Bool-cases, inl,
  inr,
}
use minisqlite.Id.{Id128}
use minisqlite.Errors.{Error, job_transition}
use minisqlite.Jobs.{Resolution, retry, mark_succeeded, mark_dead}
use minisqlite.Jobs.State.{
  JobState, pending, leased, retry_wait, uncertain, succeeded, dead, cancelled, is_terminal,
  can_transition_to,
}
use minisqlite.Store.Schema.{Db, JobRow}
use minisqlite.Store.Jobs.Table.{load_job, require_job, ensure_transition, to_nonterminal}
use minisqlite.Store.Jobs.Ops.{
  apply_ack, apply_fail, apply_cancel, apply_resolve, resolve, is_exhausted,
}
use minisqlite.Store.Jobs.Rows.{write_row}
use minisqlite.Store.Jobs.Invariant.{JobsOk}
use minisqlite.Store.Jobs.Preserve.{set_nonterminal-write}
use minisqlite.Store.Jobs.Settle.{found, to_pending}
use minisqlite.Store.Jobs.Rules.{}

stuck : (st to : JobState) → is_terminal st ≡ true → can_transition_to st to ≡ false
unfolding can_transition_to
stuck succeeded to h = refl
stuck dead to h = refl
stuck cancelled to h = refl
stuck pending to h = cc
stuck leased to h = cc
stuck retry_wait to h = cc
stuck uncertain to h = cc

module _ (db : Db) (job : JobRow) (job_id : Id128) (e : load_job db job_id ≡ some job)
    (h : is_terminal job.state ≡ true) (t : Id128) (now : ℤ) where
  ack_refused :
      (token : Id128) (d : Option Bytes)
      → apply_ack db t now (record { job_id = job_id; lease_token = token; result_digest = d })
        ≡ err (Error.conflict (job_transition job.job_id job.state succeeded))
  unfolding apply_ack require_job ensure_transition
  ack_refused token d = rw (e, stuck job.state succeeded h) refl

  cancel_refused :
      (token : Option Id128)
      → apply_cancel db t now (record { job_id = job_id; lease_token = token })
        ≡ err (Error.conflict (job_transition job.job_id job.state cancelled))
  unfolding apply_cancel require_job ensure_transition
  cancel_refused token = rw (e, stuck job.state cancelled h) refl

  fail_refused :
      (token : Id128) (summary : Bytes) (at : Option ℤ)
      → apply_fail db t now (record {
        job_id = job_id;
        lease_token = token;
        error_summary = summary;
        retry_after_ms = at;
      })
        ≡ err (
            Error.conflict
              (job_transition job.job_id job.state (if is_exhausted job then dead else retry_wait)))
  unfolding apply_fail require_job ensure_transition
  fail_refused token summary at =
      rw (e, stuck job.state (if is_exhausted job then dead else retry_wait) h) refl

  resolve_refused :
      (r : Resolution)
      → (to : JobState) × (apply_resolve db t now (record { job_id = job_id; resolution = r })
          ≡ err (Error.conflict (job_transition job.job_id job.state to)))
  unfolding apply_resolve resolve require_job ensure_transition
  resolve_refused mark_succeeded = (succeeded, rw (e, stuck job.state succeeded h) refl)
  resolve_refused mark_dead = (dead, rw (e, stuck job.state dead h) refl)
  resolve_refused retry = elim (Bool-cases (is_exhausted job)) [
    | inl x ↦ (dead, rw (e, x, stuck job.state dead h) refl)
    | inr x ↦ (pending, rw (e, x, stuck job.state pending h) refl)
  ]

-- An ack, a cancellation, a failure and a resolution of a job in a terminal state are refused
-- with a transition conflict.
pub terminal_refuses :
    (db : Db) (job : JobRow) (job_id : Id128) (t token : Id128) (now : ℤ) (digest : Option Bytes)
    (o : Option Id128) (summary : Bytes) (at : Option ℤ) (r : Resolution)
    → load_job db job_id ≡ some job
    → is_terminal job.state ≡ true
    → (apply_ack db t now (record { job_id = job_id; lease_token = token; result_digest = digest })
        ≡ err (Error.conflict (job_transition job.job_id job.state succeeded)))
      × (apply_cancel db t now (record { job_id = job_id; lease_token = o })
          ≡ err (Error.conflict (job_transition job.job_id job.state cancelled)))
      × (apply_fail db t now (record {
        job_id = job_id;
        lease_token = token;
        error_summary = summary;
        retry_after_ms = at;
      })
          ≡ err (
              Error.conflict (
                job_transition job.job_id job.state
                  (if is_exhausted job then dead else retry_wait))))
      × ((to : JobState) × (apply_resolve db t now (record { job_id = job_id; resolution = r })
            ≡ err (Error.conflict (job_transition job.job_id job.state to))))
terminal_refuses db job job_id t token now digest o summary at r e h = (
  ack_refused db job job_id e h t now token digest,
  cancel_refused db job job_id e h t now o,
  fail_refused db job job_id e h t now token summary at,
  resolve_refused db job job_id e h t now r,
)

-- On tables that meet `JobsOk` a retry resolution of a leased job with an attempt left is
-- accepted without the job's token and whatever the time, and makes the job pending.
pub apply_resolve-leased :
    (db : Db) (job : JobRow) (job_id t : Id128) (now : ℤ)
    → JobsOk db
    → load_job db job_id ≡ some job
    → job.state ≡ leased
    → is_exhausted job ≡ false
    → apply_resolve db t now (record { job_id = job_id; resolution = retry })
      ≡ ok (write_row (to_nonterminal pending none t job) db)
unfolding apply_resolve resolve require_job ensure_transition can_transition_to
apply_resolve-leased db job job_id t now h e l x =
    rw
      (
        e,
        x,
        l,
        set_nonterminal-write db job h (found h job_id job e) pending none t
            (to_pending job (rw l refl) x),
      )
      refl
