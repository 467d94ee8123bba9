-- ===== src/Store/Jobs/Rules.antt =====
-- Which job operations of src/store/jobs.rs are accepted, and what they do to the job.
use minisqlite.Base.{
  ℤ, ◌≡◌, refl, ap, true, is_id, Bytes, Option, none, some, arith, ok, map_err, >>=-eq-ok, ◌↔◌,
}
use minisqlite.Id.{Id128}
use minisqlite.Errors.{Error}
use minisqlite.Jobs.{JobAck}
use minisqlite.Jobs.State.{
  JobState, pending, leased, retry_wait, uncertain, succeeded, dead, cancelled, is_leased,
  is_terminal, can_transition_to,
}
use minisqlite.Store.Schema.{Db, JobRow, check_row}
use minisqlite.Store.Jobs.Table.{
  load_job, require_job, ensure_transition, ensure_lease_token, set_terminal, to_terminal,
  drain_partition_if_empty,
}
use minisqlite.Store.Jobs.Ops.{apply_ack}
use minisqlite.Store.Jobs.Rows.{write_row}
use minisqlite.Store.Jobs.Invariant.{JobsOk, load_job-RowOk}
use minisqlite.Store.Jobs.Preserve.{set_terminal-write}
use minisqlite.Store.Jobs.Settle.{found}

loaded :
    (db : Db) (job_id : Id128) (job : JobRow)
    → require_job db job_id ≡ ok job
    → load_job db job_id ≡ some job
unfolding require_job
loaded db job_id job e = ground (arith, e)

allowed :
    (job : JobRow) (st : JobState) (u : Unit {0})
    → ensure_transition job st ≡ ok u
    → can_transition_to job.state st ≡ true
unfolding ensure_transition
allowed job st u e = ground (arith, e)

held :
    (job : JobRow) (token : Id128) (u : Unit {0})
    → ensure_lease_token job token ≡ ok u
    → is_id job.lease_token token ≡ true
unfolding ensure_lease_token
held job token u e = ground (arith, e)

-- A token is held by leased jobs alone.
held-leased :
    (job : JobRow) (token : Id128)
    → check_row job ≡ true
    → is_id job.lease_token token ≡ true
    → is_leased job.state ≡ true
unfolding check_row
held-leased job token c e = ground (arith, c, e)

leased_state : (st : JobState) → is_leased st ≡ true → st ≡ leased
leased_state leased e = refl
leased_state pending e = cc
leased_state retry_wait e = cc
leased_state uncertain e = cc
leased_state succeeded e = cc
leased_state dead e = cc
leased_state cancelled e = cc

module _ (db : Db) (h : JobsOk db) (t : Id128) (now : ℤ) where
  settle_ok :
      (job : JobRow) (st : JobState) (d s : Option Bytes) (db' : Db)
      → load_job db job.job_id ≡ some job
      → is_terminal st ≡ true
      → map_err Error.storage (set_terminal db job st now t d s) ≡ ok db'
      → db'
        ≡ drain_partition_if_empty job.queue job.partition_key
            (write_row (to_terminal st now t d s job) db)
  settle_ok job st d s db' e k q =
      cc (q, ap (map_err Error.storage) (set_terminal-write db job h e st now t d s k))

  ack_accepted :
      (ack : JobAck) (db' : Db)
      → apply_ack db t now ack ≡ ok db'
      → (job : JobRow) × (load_job db ack.job_id ≡ some job)
        × (job.state ≡ leased)
        × (is_id job.lease_token ack.lease_token ≡ true)
        × (db'
            ≡ drain_partition_if_empty job.queue job.partition_key
                (write_row (to_terminal succeeded now t ack.result_digest none job) db))
  unfolding apply_ack
  ack_accepted ack db' q =
      let a = >>=-eq-ok (require_job db ack.job_id) _ q in
      let b = >>=-eq-ok (ensure_transition a.0 succeeded) _ a.2 in
      let c = >>=-eq-ok (ensure_lease_token a.0 ack.lease_token) _ b.2 in
      let e = loaded db ack.job_id a.0 a.1 in
      let k = held a.0 ack.lease_token c.0 c.1 in
      (
        a.0,
        e,
        leased_state a.0.state
            (held-leased a.0 ack.lease_token (load_job-RowOk db a.0 ack.job_id h e).checks k),
        k,
        settle_ok a.0 succeeded ack.result_digest none db' (found h ack.job_id a.0 e) refl c.2,
      )

  ack_accepts :
      (ack : JobAck) (db' : Db)
      → ((job : JobRow) × (load_job db ack.job_id ≡ some job)
          × (job.state ≡ leased)
          × (is_id job.lease_token ack.lease_token ≡ true)
          × (db'
              ≡ drain_partition_if_empty job.queue job.partition_key
                  (write_row (to_terminal succeeded now t ack.result_digest none job) db)))
      → apply_ack db t now ack ≡ ok db'
  unfolding apply_ack require_job ensure_transition ensure_lease_token can_transition_to
  ack_accepts ack db' (job, e, l, k, d) =
      rw
        (
          e,
          l,
          k,
          set_terminal-write db job h (found h ack.job_id job e) succeeded now t ack.result_digest
              none refl,
          d,
        )
        refl

  -- On tables that meet `JobsOk` an ack is accepted exactly for a leased job and the token of
  -- its lease; it then makes the job succeed and drains its partition.
  pub apply_ack_iff :
      (ack : JobAck) (db' : Db)
      → (apply_ack db t now ack ≡ ok db') ↔ (
          (job : JobRow) × (load_job db ack.job_id ≡ some job)
          × (job.state ≡ leased)
          × (is_id job.lease_token ack.lease_token ≡ true)
          × (db'
              ≡ drain_partition_if_empty job.queue job.partition_key
                  (write_row (to_terminal succeeded now t ack.result_digest none job) db)))
  apply_ack_iff ack db' = (ack_accepted ack db', ack_accepts ack db')
