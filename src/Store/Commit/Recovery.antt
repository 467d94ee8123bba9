-- ===== src/Store/Commit/Recovery.antt =====
-- What a transaction leaves behind, and what `recover_transaction` of src/store/commit.rs finds.
use minisqlite.Base.{
  ◌≡◌, refl, sym, ◌∙◌, Bool, true, false, Option, none, some, bytes_eq, bytes_eq_refl, bytes_eq_iff,
  Result, ok, err, subst, ap, Bool-cases, inl, inr, some-injective, if◌then◌else◌,
}
use minisqlite.Id.{Id128}
use minisqlite.Config.{Limits}
use minisqlite.Errors.{CommitError, ValidationError}
use minisqlite.Transaction.{CommitBatch, CommitReceipt, TransactionRecovery, committed, absent}
use minisqlite.Store.Schema.{
  Db, TransactionRow, Fate, busy, commits, unknown_kept, unknown_lost, settle,
}
use minisqlite.Store.Commit.Validate.{validate_batch}
use minisqlite.Store.Commit.Run.{
  lookup_transaction, receipt_for, recover_transaction, request_digest, row_of, write_batch,
  finish_commit, resubmit, begin_commit, commit,
}
use minisqlite.Store.Commit.Written.{lookup-written}

resubmit-known :
    (fate : Fate) (db : Db) (batch : CommitBatch) (r : TransactionRow)
    → r.request_digest ≡ request_digest batch
    → resubmit fate db batch (some r) ≡ (
      ok (record {
        transaction_id = batch.transaction_id;
        transaction_sequence = r.transaction_sequence;
        committed_at_ms = r.committed_at_ms;
      }),
      db,
    )
unfolding resubmit
resubmit-known fate db batch r e = rw (e, bytes_eq_refl (request_digest batch)) refl

abbrev is_busy : Fate → Bool
is_busy busy = true
is_busy _ = false

taken :
    (m : Result (Unit {0}) ValidationError) (p : Result CommitReceipt CommitError × Db) (db : Db)
    → m ≡ ok tt
    → (elim m as (λ _. Result CommitReceipt CommitError × Db) [
      | ok _ ↦ p
      | err e ↦ (err (CommitError.validation e), db)
    ])
      ≡ p
taken (ok _) p db e = refl
taken (err x) p db e = cc

-- A valid batch goes to the lookup of its id.
begin_commit-lookup :
    (fate : Fate) (db : Db) (batch : CommitBatch)
    → is_busy fate ≡ false
    → begin_commit fate db batch
      ≡ resubmit fate db batch (lookup_transaction db batch.transaction_id)
unfolding begin_commit
begin_commit-lookup busy db batch b = cc
begin_commit-lookup commits db batch b = refl
begin_commit-lookup unknown_kept db batch b = refl
begin_commit-lookup unknown_lost db batch b = refl

commit-lookup :
    (limits : Limits) (fate : Fate) (db : Db) (batch : CommitBatch)
    → is_busy fate ≡ false
    → validate_batch limits batch ≡ ok tt
    → commit limits fate db batch
      ≡ resubmit fate db batch (lookup_transaction db batch.transaction_id)
unfolding commit
commit-lookup limits fate db batch b v =
    taken (validate_batch limits batch) _ db v ∙ begin_commit-lookup fate db batch b

refused :
    (m : Result (Unit {0}) ValidationError) (p : Result CommitReceipt CommitError × Db) (db : Db)
    {r : CommitReceipt} {db' : Db}
    → ◌≡◌ {A = Result CommitReceipt CommitError × Db}
        (elim m as (λ _. Result CommitReceipt CommitError × Db) [
          | ok _ ↦ p
          | err e ↦ (err (CommitError.validation e), db)
        ])
        (ok r, db')
    → m ≡ ok tt
refused (ok tt) p db e = refl
refused (err x) p db e = cc

committed-valid :
    (limits : Limits) (fate : Fate) (db db' : Db) (batch : CommitBatch) (r : CommitReceipt)
    → commit limits fate db batch ≡ (ok r, db')
    → validate_batch limits batch ≡ ok tt
unfolding commit
committed-valid limits fate db db' batch r e = refused (validate_batch limits batch) _ db e

-- A new batch that commits: its row is there, and what the receipt says is read off it.
finished :
    (db db' : Db) (batch : CommitBatch) (r : CommitReceipt) (m : Result Db CommitError)
    → finish_commit commits db batch m ≡ (ok r, db')
    → (m ≡ ok db') × (r ≡ receipt_for db batch)
unfolding finish_commit settle
finished db db' batch r (ok d) e = (cc, cc)
finished db db' batch r (err x) e = cc

same_result :
    {a b : CommitReceipt} {db db' : Db}
    → ◌≡◌ {A = Result CommitReceipt CommitError × Db} (ok a, db) (ok b, db')
    → (a ≡ b) × (db ≡ db')
same_result e = (cc, cc)

resubmitted :
    (db db' : Db) (batch : CommitBatch) (r : CommitReceipt) (o : Option TransactionRow)
    → lookup_transaction db batch.transaction_id ≡ o
    → resubmit commits db batch o ≡ (ok r, db')
    → (s : TransactionRow) × (lookup_transaction db' batch.transaction_id ≡ some s)
      × (s.request_digest ≡ request_digest batch)
      × (r ≡ record {
        transaction_id = batch.transaction_id;
        transaction_sequence = s.transaction_sequence;
        committed_at_ms = s.committed_at_ms;
      })
unfolding resubmit
resubmitted db db' batch r none n e =
    let f = finished db db' batch r (write_batch db batch) e in
    (row_of db batch, lookup-written db db' batch n f.0, refl, f.1)
resubmitted db db' batch r (some s) n e =
    elim (Bool-cases (bytes_eq s.request_digest (request_digest batch))) [
      | inl q ↦
          let e' : ◌≡◌ {A = Result CommitReceipt CommitError × Db} (ok _, db) (ok r, db') =
            rw q at e in
          (
            s,
            subst (λ d. lookup_transaction d batch.transaction_id ≡ some s) (same_result e').1 n,
            (bytes_eq_iff s.request_digest (request_digest batch)).0 q,
            sym (same_result e').0,
          )
      | inr q ↦ cc (rw q at e)
    ]

-- A batch that was committed can be sent again to a store that is not busy, whatever becomes of
-- the second transaction: the same receipt comes back and the tables stay as they are.
pub commit-commit :
    (limits : Limits) (fate : Fate) (db db' : Db) (batch : CommitBatch) (r : CommitReceipt)
    → is_busy fate ≡ false
    → commit limits commits db batch ≡ (ok r, db')
    → commit limits fate db' batch ≡ (ok r, db')
commit-commit limits fate db db' batch r b e =
    let v = committed-valid limits commits db db' batch r e in
    let w =
      resubmitted db db' batch r _ refl (sym (commit-lookup limits commits db batch refl v) ∙ e) in
    commit-lookup limits fate db' batch b v
    ∙ ap (resubmit fate db' batch) w.1
    ∙ resubmit-known fate db' batch w.0 w.2
    ∙ ap (λ x. (ok x, db')) (sym w.3)

abbrev is_kept : Fate → Bool
is_kept commits = true
is_kept unknown_kept = true
is_kept _ = false

absent-none :
    (t : Id128) (o : Option TransactionRow)
    → (elim o as (λ _. TransactionRecovery) [
      | none ↦ absent
      | some r ↦ committed (record {
        transaction_id = t;
        transaction_sequence = r.transaction_sequence;
        committed_at_ms = r.committed_at_ms;
      })
    ])
      ≡ absent
    → o ≡ none
absent-none t none e = refl
absent-none t (some r) e = cc

recover-absent :
    (db : Db) (t : Id128) → recover_transaction db t ≡ absent → lookup_transaction db t ≡ none
unfolding recover_transaction
recover-absent db t e = absent-none t (lookup_transaction db t) e

found_row :
    (t : Id128) (o : Option TransactionRow) (row : TransactionRow)
    → o ≡ some row
    → (elim o as (λ _. TransactionRecovery) [
      | none ↦ absent
      | some r ↦ committed (record {
        transaction_id = t;
        transaction_sequence = r.transaction_sequence;
        committed_at_ms = r.committed_at_ms;
      })
    ])
      ≡ committed (record {
        transaction_id = t;
        transaction_sequence = row.transaction_sequence;
        committed_at_ms = row.committed_at_ms;
      })
found_row t none row e = cc
found_row t (some r) row e =
    ap
      (λ (x : TransactionRow). committed (record {
        transaction_id = t;
        transaction_sequence = x.transaction_sequence;
        committed_at_ms = x.committed_at_ms;
      }))
      (some-injective e)

recover-row :
    (db : Db) (t : Id128) (row : TransactionRow)
    → lookup_transaction db t ≡ some row
    → recover_transaction db t
      ≡ committed (record {
        transaction_id = t;
        transaction_sequence = row.transaction_sequence;
        committed_at_ms = row.committed_at_ms;
      })
unfolding recover_transaction
recover-row db t row e = found_row t (lookup_transaction db t) row e

settled :
    (fate : Fate) (db db' : Db) (batch : CommitBatch)
    → is_busy fate ≡ false
    → lookup_transaction db batch.transaction_id ≡ none
    → recover_transaction db batch.transaction_id ≡ absent
    → write_batch db batch ≡ ok db'
    → recover_transaction (resubmit fate db batch none).1 batch.transaction_id
      ≡ (if is_kept fate then committed (receipt_for db batch) else absent)
unfolding resubmit finish_commit settle
settled busy db db' batch b n a w = cc
settled commits db db' batch b n a w =
    rw w (recover-row db' batch.transaction_id (row_of db batch) (lookup-written db db' batch n w))
settled unknown_kept db db' batch b n a w =
    rw w (recover-row db' batch.transaction_id (row_of db batch) (lookup-written db db' batch n w))
settled unknown_lost db db' batch b n a w = rw w a

-- For a transaction id that is not there yet and a valid batch that can be written, on a store
-- that is not busy: after `commit`, `recover_transaction` finds the receipt of the batch
-- exactly when the data became durable.
pub recover-commit :
    (limits : Limits) (fate : Fate) (db db' : Db) (batch : CommitBatch)
    → is_busy fate ≡ false
    → validate_batch limits batch ≡ ok tt
    → recover_transaction db batch.transaction_id ≡ absent
    → write_batch db batch ≡ ok db'
    → recover_transaction (commit limits fate db batch).1 batch.transaction_id
      ≡ (if is_kept fate then committed (receipt_for db batch) else absent)
recover-commit limits fate db db' batch b v a w =
    let n = recover-absent db batch.transaction_id a in
    rw (commit-lookup limits fate db batch b v, n) (settled fate db db' batch b n a w)
