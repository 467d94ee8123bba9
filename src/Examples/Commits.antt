-- ===== src/Examples/Commits.antt =====
-- Commits on concrete tables.
use minisqlite.Transaction.Builder.{built, built_lem}
use minisqlite.Base.{bytes_eq, ◌≡◌, refl, pos, ok, ◌⊎◌, arith}
use minisqlite.Config.{
  default_limits, validate_metadata, validate_string, validate_event, validate_job_payload,
}
use minisqlite.Sql.{find_row, exists_row, upsert, max_of}
use minisqlite.Store.Jobs.Ops.{apply_enqueue}
use minisqlite.Errors.{CommitError, sqlite, commit_failed}
use minisqlite.Transaction.{CommitReceipt, committed}
use minisqlite.Store.Schema.{check_row, empty_db, commits, unknown_kept, unknown_lost}
use minisqlite.Store.Jobs.Invariant.{JobsOk}
use minisqlite.Store.Commit.Validate.{validate_batch}
use minisqlite.Store.Commit.Run.{commit, recover_transaction, write_batch, receipt_for}
use minisqlite.Store.Commit.Preserve.{WordSized, commit-JobsOk}
use minisqlite.Store.Commit.Recovery.{commit-commit, recover-commit}
use minisqlite.Store.Commit.Rollback.{commit-err}
use minisqlite.Examples.Data.{batch, db, db-JobsOk}

commit-JobsOk_example : JobsOk (commit default_limits commits db batch).1
unfolding WordSized
commit-JobsOk_example =
    commit-JobsOk default_limits commits db batch db-JobsOk (tt, (omega arith, tt))

abbrev receipt : CommitReceipt
receipt = record { transaction_id = 100; transaction_sequence = 1; committed_at_ms = pos 1000 }

commit-commit_example :
    commit default_limits unknown_lost (commit default_limits commits empty_db batch).1 batch
    ≡ (ok receipt, (commit default_limits commits empty_db batch).1)
unfolding commit validate_metadata validate_string validate_event validate_job_payload find_row
    exists_row upsert bytes_eq apply_enqueue check_row max_of
commit-commit_example =
    commit-commit default_limits unknown_lost empty_db
      (commit default_limits commits empty_db batch).1 batch receipt refl refl

recover-commit_example :
    recover_transaction (commit default_limits unknown_kept empty_db batch).1 100
    ≡ committed (receipt_for empty_db batch)
unfolding commit validate_batch write_batch recover_transaction validate_metadata validate_string
    validate_event validate_job_payload find_row exists_row upsert bytes_eq apply_enqueue check_row
    max_of
recover-commit_example =
    recover-commit default_limits unknown_kept empty_db
      (commit default_limits commits empty_db batch).1 batch refl refl refl refl

commit-err_example :
    ((commit default_limits unknown_lost empty_db batch).1 ≡ empty_db)
    ⊎ ((unknown_lost ≡ unknown_kept)
        × (CommitError.indeterminate 100 (sqlite commit_failed)
            ≡ CommitError.indeterminate 100 (sqlite commit_failed)))
unfolding commit validate_metadata validate_string validate_event validate_job_payload find_row
    exists_row upsert bytes_eq apply_enqueue check_row max_of
commit-err_example =
    commit-err default_limits unknown_lost empty_db
      (commit default_limits unknown_lost empty_db batch).1 batch
      (CommitError.indeterminate 100 (sqlite commit_failed)) refl

built_lem_example : built batch ≡ batch
built_lem_example = built_lem batch
