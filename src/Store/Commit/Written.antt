-- ===== src/Store/Commit/Written.antt =====
-- The transaction row that a batch of src/store/commit.rs writes.
use minisqlite.Base.{
  ◌≡◌, refl, ◌∙◌, ◌==◌, ==_refl, List, [], ◌∷◌, ◌++◌, none, some, ok, map_err, Ensures,
  Ensures-bind, Ensures-ok, Ensures-reject_if, Ensures-map_err, Bool-cases, inl, inr,
}
use minisqlite.Id.{Id128}
use minisqlite.Errors.{CommitError}
use minisqlite.Sql.{find_row, exists_row}
use minisqlite.Transaction.{CommitBatch}
use minisqlite.Store.Schema.{Db, TransactionRow}
use minisqlite.Store.Jobs.Table.{has_transaction_id}
use minisqlite.Store.Claims.Run.{insert_transaction}
use minisqlite.Store.Commit.Apply.{check_expected, apply_operations}
use minisqlite.Store.Commit.Run.{lookup_transaction, row_of, write_batch}
use minisqlite.Store.Commit.Frame.{apply_operations-Same, write_streams-Same}

-- What a batch writes before COMMIT has its row at the end of `transactions`.
insert_transaction-row :
    (db : Db) (row : TransactionRow)
    → Ensures (λ db'. db'.transactions ≡ db.transactions ++ row ∷ []) (insert_transaction db row)
unfolding insert_transaction
insert_transaction-row db row =
    Ensures-reject_if (exists_row (has_transaction_id row.transaction_id) db.transactions) _ _ (λ _.
      Ensures-reject_if
        (exists_row (λ t. t.transaction_sequence == row.transaction_sequence) db.transactions) _ _
        (λ _. Ensures-ok _ _ refl refl))

write_batch-row :
    (db : Db) (batch : CommitBatch)
    → Ensures
        (λ db'. db'.transactions ≡ db.transactions ++ row_of db batch ∷ [])
        (write_batch db batch)
unfolding write_batch
write_batch-row db batch =
    Ensures-bind (check_expected db batch.expected_stream_versions []) _ (λ vs _.
      Ensures-bind (map_err CommitError.storage (insert_transaction db (row_of db batch))) _
        (λ db₁ e₁.
          Ensures-bind
            (apply_operations batch.transaction_id batch.committed_at_ms db₁ vs batch.operations) _
            (λ s e₂. Ensures-ok _ _ refl (
              write_streams-Same s.1 s.0
              ∙ (apply_operations-Same batch.transaction_id batch.committed_at_ms batch.operations
                    db₁ vs).at
                  s e₂
              ∙ (Ensures-map_err CommitError.storage _
                    (insert_transaction-row db (row_of db batch))).at
                  db₁ e₁))))

find_row-last :
    (t : Id128) (rows : List TransactionRow) (row : TransactionRow)
    → find_row (has_transaction_id t) rows ≡ none
    → row.transaction_id ≡ t
    → find_row (has_transaction_id t) (rows ++ row ∷ []) ≡ some row
unfolding find_row
find_row-last t [] row e k = rw (k, ==_refl t) refl
find_row-last t (x ∷ xs) row e k = elim (Bool-cases (has_transaction_id t x)) [
  | inl q ↦ cc (rw q at e)
  | inr q ↦ rw q (find_row-last t xs row (rw q at e) k)
]

pub lookup-written :
    (db db' : Db) (batch : CommitBatch)
    → lookup_transaction db batch.transaction_id ≡ none
    → write_batch db batch ≡ ok db'
    → lookup_transaction db' batch.transaction_id ≡ some (row_of db batch)
unfolding lookup_transaction
lookup-written db db' batch n e =
    rw ((write_batch-row db batch).at db' e)
      (find_row-last batch.transaction_id db.transactions (row_of db batch) n refl)
