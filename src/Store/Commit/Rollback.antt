-- ===== src/Store/Commit/Rollback.antt =====
-- What an error of `commit` in src/store/commit.rs leaves behind.
use minisqlite.Base.{
  ◌≡◌, refl, Option, none, some, bytes_eq, Result, ok, err, Bool-cases, inl, inr, ◌⊎◌,
}
use minisqlite.Config.{Limits}
use minisqlite.Errors.{CommitError, ValidationError, sqlite, commit_failed}
use minisqlite.Transaction.{CommitBatch, CommitReceipt}
use minisqlite.Store.Schema.{
  Db, TransactionRow, Fate, busy, commits, unknown_kept, unknown_lost, settle,
}
use minisqlite.Store.Commit.Validate.{validate_batch}
use minisqlite.Store.Commit.Run.{
  request_digest, write_batch, finish_commit, resubmit, begin_commit, commit,
}
use minisqlite.Store.Commit.Recovery.{}

-- What an error may have done to the tables.
abbrev Undone : Fate → Db → Db → CommitBatch → CommitError → Type 0
Undone fate db db' batch e =
    (db' ≡ db)
    ⊎ ((fate ≡ unknown_kept)
        × (e ≡ CommitError.indeterminate batch.transaction_id (sqlite commit_failed)))

finish_commit-err :
    (fate : Fate) (db db' : Db) (batch : CommitBatch) (e : CommitError) (m : Result Db CommitError)
    → finish_commit fate db batch m ≡ (err e, db')
    → Undone fate db db' batch e
unfolding finish_commit settle
finish_commit-err fate db db' batch e (err x) q = inl cc
finish_commit-err busy db db' batch e (ok d) q = inl cc
finish_commit-err commits db db' batch e (ok d) q = cc
finish_commit-err unknown_kept db db' batch e (ok d) q = inr (refl, cc)
finish_commit-err unknown_lost db db' batch e (ok d) q = inl cc

resubmit-err :
    (fate : Fate) (db db' : Db) (batch : CommitBatch) (e : CommitError) (o : Option TransactionRow)
    → resubmit fate db batch o ≡ (err e, db')
    → Undone fate db db' batch e
unfolding resubmit
resubmit-err fate db db' batch e none q =
    finish_commit-err fate db db' batch e (write_batch db batch) q
resubmit-err fate db db' batch e (some r) q =
    elim (Bool-cases (bytes_eq r.request_digest (request_digest batch))) [
      | inl t ↦ cc (rw t at q)
      | inr t ↦ inl (cc (rw t at q))
    ]

begin_commit-err :
    (fate : Fate) (db db' : Db) (batch : CommitBatch) (e : CommitError)
    → begin_commit fate db batch ≡ (err e, db')
    → Undone fate db db' batch e
unfolding begin_commit
begin_commit-err busy db db' batch e q = inl cc
begin_commit-err commits db db' batch e q = resubmit-err commits db db' batch e _ q
begin_commit-err unknown_kept db db' batch e q = resubmit-err unknown_kept db db' batch e _ q
begin_commit-err unknown_lost db db' batch e q = resubmit-err unknown_lost db db' batch e _ q

undone :
    (m : Result (Unit {0}) ValidationError) (db db' : Db) (e : CommitError) (P : Type 0)
    (p : Result CommitReceipt CommitError × Db)
    → (p ≡ (err e, db') → (db' ≡ db) ⊎ P)
    → ◌≡◌ {A = Result CommitReceipt CommitError × Db}
        (elim m as (λ _. Result CommitReceipt CommitError × Db) [
          | ok _ ↦ p
          | err x ↦ (err (CommitError.validation x), db)
        ])
        (err e, db')
    → (db' ≡ db) ⊎ P
undone (ok _) db db' e P p h q = h q
undone (err x) db db' e P p h q = inl cc

-- A `commit` that returns an error left the tables as they were, or COMMIT failed after the
-- data was written and the error is the indeterminate one that names the transaction.
pub commit-err :
    (limits : Limits) (fate : Fate) (db db' : Db) (batch : CommitBatch) (e : CommitError)
    → commit limits fate db batch ≡ (err e, db')
    → (db' ≡ db)
      ⊎ ((fate ≡ unknown_kept)
          × (e ≡ CommitError.indeterminate batch.transaction_id (sqlite commit_failed)))
unfolding commit
commit-err limits fate db db' batch e q =
    undone (validate_batch limits batch) db db' e _ _ (begin_commit-err fate db db' batch e) q
