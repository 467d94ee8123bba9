-- ===== src/Store/Jobs/Preserve.antt =====
-- The two updates of src/store/jobs.rs that settle a job, on tables that meet the invariant.
use minisqlite.Base.{
  ℤ, ◌<◌, ◌≡◌, refl, true, false, not, ◌||◌, ltb, is_some, is_none, Bytes, Option, some, arith, ok,
  Ensures, Ensures-ok,
}
use minisqlite.Id.{Id128}
use minisqlite.Jobs.State.{
  JobState, pending, leased, retry_wait, uncertain, succeeded, dead, cancelled, is_active,
  is_leased, is_terminal, is_pending,
}
use minisqlite.Store.Schema.{Db, JobRow, check_row, is_retry_wait}
use minisqlite.Store.Jobs.Table.{
  load_job, to_terminal, set_terminal, to_nonterminal, set_nonterminal, drain_partition_if_empty,
}
use minisqlite.Store.Jobs.Rows.{Moves, write_row, update_job-write}
use minisqlite.Store.Jobs.Invariant.{
  RowOk, JobsOk, is_waiting, load_job-RowOk, write-JobsOk, drain-JobsOk,
}

-- What the CHECK constraints read of a terminal state.
terminal_flags :
    (st : JobState)
    → is_terminal st ≡ true
    → (is_leased st ≡ false)
      × (is_retry_wait st ≡ false)
      × (is_active st ≡ false)
      × (is_waiting st ≡ false)
terminal_flags succeeded h = (refl, refl, refl, refl)
terminal_flags dead h = (refl, refl, refl, refl)
terminal_flags cancelled h = (refl, refl, refl, refl)
terminal_flags pending h = cc
terminal_flags leased h = cc
terminal_flags retry_wait h = cc
terminal_flags uncertain h = cc

has_attempts : (r : JobRow) → check_row r ≡ true → ltb 0 r.max_attempts ≡ true
unfolding check_row
has_attempts r h = ground arith

terminal_checks :
    (r : JobRow) (st : JobState) (now : ℤ) (t : Id128) (d s : Option Bytes)
    → is_terminal st ≡ true
    → check_row r ≡ true
    → check_row (to_terminal st now t d s r) ≡ true
unfolding check_row to_terminal
terminal_checks r st now t d s h c =
    let f = terminal_flags st h in rw (has_attempts r c, f.0, f.1, h) refl

to_terminal-RowOk :
    (r : JobRow) (st : JobState) (now : ℤ) (t : Id128) (d s : Option Bytes)
    → is_terminal st ≡ true
    → RowOk r
    → RowOk (to_terminal st now t d s r)
unfolding to_terminal
to_terminal-RowOk r st now t d s h k = record {
  checks = terminal_checks r st now t d s h k.checks;
  attempts = k.attempts;
  left = λ w. cc (w, (terminal_flags st h).3);
  word = k.word;
}

to_terminal-Moves :
    (r : JobRow) (st : JobState) (now : ℤ) (t : Id128) (d s : Option Bytes)
    → is_terminal st ≡ true
    → Moves r (to_terminal st now t d s r)
unfolding to_terminal
to_terminal-Moves r st now t d s h = record {
  id = refl;
  sequence = refl;
  queue = refl;
  partition_key = refl;
  active = λ a. cc (a, (terminal_flags st h).2);
  fresh = λ a f. cc (a, (terminal_flags st h).2);
}

module _ (db : Db) (job : JobRow) (h : JobsOk db) (e : load_job db job.job_id ≡ some job) where
  -- `set_terminal` never fails on a loaded job, and it replaces the row and drains the partition.
  pub set_terminal-write :
      (st : JobState) (now : ℤ) (t : Id128) (d s : Option Bytes)
      → is_terminal st ≡ true
      → set_terminal db job st now t d s
        ≡ ok (
            drain_partition_if_empty job.queue job.partition_key
              (write_row (to_terminal st now t d s job) db))
  unfolding set_terminal to_terminal
  set_terminal-write st now t d s k =
      rw
        (update_job-write job.job_id (to_terminal st now t d s) db job h.chain e refl
          (terminal_checks job st now t d s k (load_job-RowOk db job job.job_id h e).checks))
        refl

  pub set_terminal-JobsOk :
      (st : JobState) (now : ℤ) (t : Id128) (d s : Option Bytes)
      → is_terminal st ≡ true
      → Ensures JobsOk (set_terminal db job st now t d s)
  unfolding to_terminal
  set_terminal-JobsOk st now t d s k = Ensures-ok _ _ (set_terminal-write st now t d s k) (
      drain-JobsOk db job (to_terminal st now t d s job) h e (to_terminal-Moves job st now t d s k)
        (to_terminal-RowOk job st now t d s k (load_job-RowOk db job job.job_id h e))
        (terminal_flags st k).2)

-- What the CHECK constraints read of a state that is neither terminal nor leased.
idle_flags : (st : JobState) → is_active st ≡ true → is_terminal st ≡ false
idle_flags pending h = refl
idle_flags leased h = refl
idle_flags retry_wait h = refl
idle_flags uncertain h = refl
idle_flags succeeded h = cc
idle_flags dead h = cc
idle_flags cancelled h = cc

-- The conditions under which a job that was claimed may go on in the state `st`.
pub record Idle (r : JobRow) (st : JobState) (at : Option ℤ) : Type 0 where
  pub target : is_active st ≡ true
  pub unleased : is_leased st ≡ false
  pub due : (not (is_retry_wait st) || is_some at) ≡ true
  pub from : is_active r.state ≡ true
  pub claimed : is_pending r.state ≡ false
  pub left : is_waiting st ≡ true → r.attempt < r.max_attempts

nonterminal_checks :
    (r : JobRow) (st : JobState) (at : Option ℤ) (t : Id128)
    → Idle r st at
    → is_terminal r.state ≡ false
    → check_row r ≡ true
    → check_row (to_nonterminal st at t r) ≡ true
unfolding check_row to_nonterminal
nonterminal_checks r st at t i n c =
    let d : is_none r.terminal_at_ms ≡ true = ground (arith, c, n) in
    rw (has_attempts r c, i.unleased, i.due, idle_flags st i.target) (ground (arith, d))

pub not_terminal_of : (st : JobState) → is_active st ≡ true → is_terminal st ≡ false
not_terminal_of st h = idle_flags st h

module _ (db : Db) (job : JobRow) (h : JobsOk db) (e : load_job db job.job_id ≡ some job) where
  pub set_nonterminal-write :
      (st : JobState) (at : Option ℤ) (t : Id128)
      → Idle job st at
      → set_nonterminal db job.job_id st at t ≡ ok (write_row (to_nonterminal st at t job) db)
  unfolding set_nonterminal to_nonterminal
  set_nonterminal-write st at t i =
      update_job-write job.job_id (to_nonterminal st at t) db job h.chain e refl (
        nonterminal_checks job st at t i (not_terminal_of job.state i.from)
          (load_job-RowOk db job job.job_id h e).checks)

  pub set_nonterminal-JobsOk :
      (st : JobState) (at : Option ℤ) (t : Id128)
      → Idle job st at
      → JobsOk (write_row (to_nonterminal st at t job) db)
  unfolding to_nonterminal
  set_nonterminal-JobsOk st at t i =
      write-JobsOk db job (to_nonterminal st at t job) h e
        (record {
          id = refl;
          sequence = refl;
          queue = refl;
          partition_key = refl;
          active = λ a. i.from;
          fresh = λ a f. ground (arith, i.claimed);
        })
        (record {
          checks =
              nonterminal_checks job st at t i (not_terminal_of job.state i.from)
                (load_job-RowOk db job job.job_id h e).checks;
          attempts = (load_job-RowOk db job job.job_id h e).attempts;
          left = i.left;
          word = (load_job-RowOk db job job.job_id h e).word;
        })
        i.target
