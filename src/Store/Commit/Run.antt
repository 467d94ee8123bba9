-- ===== src/Store/Commit/Run.antt =====
-- `commit` and `recover_transaction` of src/store/commit.rs.
use minisqlite.Base.{
  Bytes, bytes_eq, [], Option, none, some, length, if◌then◌else◌, Result, ok, err, map_err, ◌>>=◌,
}
use minisqlite.Id.{Id128}
use minisqlite.Sql.{find_row}
use minisqlite.Config.{Limits}
use minisqlite.Errors.{sqlite, commit_failed, CommitError, duplicate_id_with_different_content}
use minisqlite.Transaction.{CommitBatch, CommitReceipt, TransactionRecovery, committed, absent}
use minisqlite.Transaction.Canonical.{canonical}
use minisqlite.Sha256.{sha256}
use minisqlite.Store.Schema.{Db, TransactionRow, Fate, busy, commits, settle}
use minisqlite.Store.Jobs.Table.{has_transaction_id}
use minisqlite.Store.Claims.Run.{insert_transaction, next_transaction_sequence}
use minisqlite.Store.Commit.Validate.{validate_batch}
use minisqlite.Store.Commit.Apply.{check_expected, apply_operations, write_streams}

unfoldable pub lookup_transaction : Db → Id128 → Option TransactionRow
lookup_transaction db transaction_id = find_row (has_transaction_id transaction_id) db.transactions

abbrev pub receipt_of : TransactionRow → CommitReceipt
receipt_of r = record {
  transaction_id = r.transaction_id;
  transaction_sequence = r.transaction_sequence;
  committed_at_ms = r.committed_at_ms;
}

unfoldable pub recover_transaction : Db → Id128 → TransactionRecovery
unfolding lookup_transaction
recover_transaction db transaction_id = elim (lookup_transaction db transaction_id) [
  | none ↦ absent
  | some r ↦ committed (record {
    transaction_id = transaction_id;
    transaction_sequence = r.transaction_sequence;
    committed_at_ms = r.committed_at_ms;
  })
]

-- The writes of `request_digest` to its hasher amount to one write of the canonical bytes.
unfoldable pub request_digest : CommitBatch → Bytes
request_digest batch = sha256 (canonical batch)

abbrev pub row_of : Db → CommitBatch → TransactionRow
row_of db batch = record {
  transaction_id = batch.transaction_id;
  transaction_sequence = next_transaction_sequence db;
  committed_at_ms = batch.committed_at_ms;
  correlation_id = batch.correlation_id;
  metadata = batch.metadata;
  request_digest = request_digest batch;
  operation_count = length batch.operations;
}

-- Everything from the expected versions to the last statement before COMMIT.
unfoldable pub write_batch : Db → CommitBatch → Result Db CommitError
unfolding check_expected insert_transaction next_transaction_sequence apply_operations write_streams
write_batch db batch = do
  versions ← check_expected db batch.expected_stream_versions []
  db₁ ← map_err CommitError.storage (insert_transaction db (row_of db batch))
  state ← apply_operations batch.transaction_id batch.committed_at_ms db₁ versions batch.operations
  ok (write_streams state.1 state.0)

abbrev pub receipt_for : Db → CommitBatch → CommitReceipt
receipt_for db batch = record {
  transaction_id = batch.transaction_id;
  transaction_sequence = next_transaction_sequence db;
  committed_at_ms = batch.committed_at_ms;
}

-- COMMIT, and what is reported of it.
unfoldable pub finish_commit :
    Fate → Db → CommitBatch → Result Db CommitError → Result CommitReceipt CommitError × Db
unfolding settle
finish_commit fate db batch (err e) = (err e, db)
finish_commit commits db batch (ok db') = (ok (receipt_for db batch), settle commits db db')
finish_commit fate db batch (ok db') = (
  err (CommitError.indeterminate batch.transaction_id (sqlite commit_failed)),
  settle fate db db',
)

-- The lookup of the transaction id: a resubmission, a reused id or a new transaction.
unfoldable pub resubmit :
    Fate → Db → CommitBatch → Option TransactionRow → Result CommitReceipt CommitError × Db
unfolding request_digest write_batch finish_commit
resubmit fate db batch (some r) =
    if bytes_eq r.request_digest (request_digest batch)
    then (
      ok (record {
        transaction_id = batch.transaction_id;
        transaction_sequence = r.transaction_sequence;
        committed_at_ms = r.committed_at_ms;
      }),
      db,
    )
    else (err duplicate_id_with_different_content, db)
resubmit fate db batch none = finish_commit fate db batch (write_batch db batch)

-- BEGIN IMMEDIATE.
unfoldable pub begin_commit : Fate → Db → CommitBatch → Result CommitReceipt CommitError × Db
unfolding resubmit lookup_transaction
begin_commit busy db batch = (err (CommitError.storage (sqlite commit_failed)), db)
begin_commit fate db batch = resubmit fate db batch (lookup_transaction db batch.transaction_id)

unfoldable pub commit : Limits → Fate → Db → CommitBatch → Result CommitReceipt CommitError × Db
unfolding begin_commit validate_batch
commit limits fate db batch = elim (validate_batch limits batch) [
  | ok _ ↦ begin_commit fate db batch
  | err e ↦ (err (CommitError.validation e), db)
]
