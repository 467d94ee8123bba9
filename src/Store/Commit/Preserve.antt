-- ===== src/Store/Commit/Preserve.antt =====
-- The commit pipeline of src/store/commit.rs and the invariant of the job tables.
use minisqlite.Base.{
  ℕ, ℤ, ◌<◌, ◌^◌, ◌+◌, refl, not, ◌==◌, ltb, List, [], ◌∷◌, Option, none, some, All, bytes_eq,
  Bool-cases, inl, inr, Result, ok, err, map_err, ok-injective, subst, Ensures, Ensures-bind,
  Ensures-ok, Ensures-guard, Ensures-reject_if, Ensures-map_err,
}
use minisqlite.Id.{Id128}
use minisqlite.Config.{Limits}
use minisqlite.Errors.{Error, ValidationError, CommitError}
use minisqlite.Event.{Event}
use minisqlite.Projection.{}
use minisqlite.Sql.{exists_row}
use minisqlite.Transaction.{
  Operation, append_event, projection_patch, enqueue_job, ack_job, fail_job, cancel_job,
  resolve_job, extend_lease, CommitBatch, CommitReceipt,
}
use minisqlite.Store.Schema.{
  Db, TransactionRow, Fate, busy, commits, unknown_kept, unknown_lost, settle,
}
use minisqlite.Store.Events.{insert_event, has_event_id, at_version}
use minisqlite.Store.Projections.{}
use minisqlite.Store.Jobs.Table.{has_transaction_id}
use minisqlite.Store.Jobs.Invariant.{JobsOk}
use minisqlite.Store.Jobs.Enqueue.{apply_enqueue-JobsOk}
use minisqlite.Store.Jobs.Settle.{
  apply_ack-JobsOk, apply_fail-JobsOk, apply_cancel-JobsOk, apply_resolve-JobsOk,
}
use minisqlite.Store.Jobs.Extended.{apply_extend_lease-JobsOk}
use minisqlite.Store.Claims.Run.{insert_transaction}
use minisqlite.Store.Commit.Apply.{
  State, Versions, append, known_version, keep_versions, keep_extension, apply_operation,
  apply_operations, write_streams, check_expected,
}
use minisqlite.Store.Commit.Validate.{validate_batch}
use minisqlite.Store.Commit.Run.{
  write_batch, request_digest, row_of, finish_commit, resubmit, begin_commit, commit,
}
use minisqlite.Store.Commit.SameJobs.{SameJobs, SameJobs-JobsOk, apply_projection_patch-SameJobs}

-- `max_attempts` is a `u32`.
unfoldable pub WordSized : Operation → Type 0
WordSized (enqueue_job j) = j.max_attempts < 2 ^ 32
WordSized _ = Unit

keep_versions-JobsOk :
    (vs : Versions) (m : Result Db Error)
    → Ensures JobsOk m
    → Ensures (λ (s : State). JobsOk s.0) (keep_versions vs m)
keep_versions-JobsOk vs (ok db) h = record {
  at = λ s e. subst (λ (q : State). JobsOk q.0) (ok-injective e) (h.at db refl);
}
keep_versions-JobsOk vs (err x) h = record { at = λ s e. cc }

keep_extension-JobsOk :
    {A : Type 0} {E : Type 0} (f : E → CommitError) (vs : Versions) (m : Result (A × Db) E)
    → Ensures (λ (p : A × Db). JobsOk p.1) m
    → Ensures (λ (s : State). JobsOk s.0) (keep_extension f vs m)
keep_extension-JobsOk f vs (ok (a, db)) h = record {
  at = λ s e. subst (λ (q : State). JobsOk q.0) (ok-injective e) (h.at (a, db) refl);
}
keep_extension-JobsOk f vs (err x) h = record { at = λ s e. cc }

insert_event-SameJobs :
    (db : Db) (t : Id128) (e : Event) (v : ℕ) → Ensures (SameJobs db) (insert_event db t e v)
unfolding insert_event
insert_event-SameJobs db t e v =
    Ensures-reject_if (exists_row (has_event_id e.event_id) db.events) _ _ (λ _.
      Ensures-reject_if (exists_row (at_version e.stream_id v) db.events) _ _ (λ _.
        Ensures-guard (exists_row (has_transaction_id t) db.transactions) _ _
          (λ _. Ensures-ok _ _ refl (refl, refl))))

module _ (t : Id128) (now : ℤ) where
  append-JobsOk :
      (db : Db) (vs : Versions) (e : Event)
      → JobsOk db
      → Ensures (λ (s : State). JobsOk s.0) (append db vs t e)
  unfolding append
  append-JobsOk db vs e h =
      Ensures-reject_if (not (ltb (known_version db vs e.stream_id + 1) (2 ^ 64))) _ _ (λ _.
        Ensures-bind
          (map_err CommitError.storage (insert_event db t e (known_version db vs e.stream_id + 1)))
          _
          (λ db' q. Ensures-ok _ _ refl (
            SameJobs-JobsOk db db' h
              ((Ensures-map_err CommitError.storage _ (insert_event-SameJobs db t e _)).at db' q))))

  -- Each operation of a batch keeps the invariant of the job tables.
  pub apply_operation-JobsOk :
      (db : Db) (vs : Versions) (o : Operation)
      → JobsOk db
      → WordSized o
      → Ensures (λ (s : State). JobsOk s.0) (apply_operation t now db vs o)
  unfolding apply_operation WordSized
  apply_operation-JobsOk db vs (append_event e) h w = append-JobsOk db vs e h
  apply_operation-JobsOk db vs (projection_patch p) h w = keep_versions-JobsOk vs _ (record {
    at = λ db' q. SameJobs-JobsOk db db' h ((apply_projection_patch-SameJobs db p).at db' q);
  })
  apply_operation-JobsOk db vs (enqueue_job j) h w =
      keep_versions-JobsOk vs _ (apply_enqueue-JobsOk h t j w)
  apply_operation-JobsOk db vs (ack_job a) h w =
      keep_versions-JobsOk vs _ (apply_ack-JobsOk h t now a)
  apply_operation-JobsOk db vs (fail_job f) h w =
      keep_versions-JobsOk vs _ (apply_fail-JobsOk h t now f)
  apply_operation-JobsOk db vs (cancel_job c) h w =
      keep_versions-JobsOk vs _ (apply_cancel-JobsOk h t now c)
  apply_operation-JobsOk db vs (resolve_job r) h w =
      keep_versions-JobsOk vs _ (apply_resolve-JobsOk h t now r)
  apply_operation-JobsOk db vs (extend_lease x) h w =
      keep_extension-JobsOk _ vs _ (apply_extend_lease-JobsOk h x now)

  apply_operations-JobsOk :
      (os : List Operation) (db : Db) (vs : Versions)
      → JobsOk db
      → All WordSized os
      → Ensures (λ (s : State). JobsOk s.0) (apply_operations t now db vs os)
  unfolding apply_operations
  apply_operations-JobsOk [] db vs h w = Ensures-ok _ _ refl h
  apply_operations-JobsOk (o ∷ os) db vs h w =
      Ensures-bind (apply_operation t now db vs o) _ (λ s e.
        apply_operations-JobsOk os s.0 s.1 ((apply_operation-JobsOk db vs o h w.0).at s e) w.1)

write_streams-SameJobs : (rs : Versions) (db : Db) → SameJobs db (write_streams rs db)
unfolding write_streams
write_streams-SameJobs [] db = (refl, refl)
write_streams-SameJobs (r ∷ rs) db = write_streams-SameJobs rs _

pub insert_transaction-SameJobs :
    (db : Db) (row : TransactionRow) → Ensures (SameJobs db) (insert_transaction db row)
unfolding insert_transaction
insert_transaction-SameJobs db row =
    Ensures-reject_if (exists_row (has_transaction_id row.transaction_id) db.transactions) _ _ (λ _.
      Ensures-reject_if
        (exists_row (λ t. t.transaction_sequence == row.transaction_sequence) db.transactions) _ _
        (λ _. Ensures-ok _ _ refl (refl, refl)))

write_batch-JobsOk :
    (db : Db) (batch : CommitBatch)
    → JobsOk db
    → All WordSized batch.operations
    → Ensures JobsOk (write_batch db batch)
unfolding write_batch
write_batch-JobsOk db batch h w =
    Ensures-bind (check_expected db batch.expected_stream_versions []) _ (λ vs _.
      Ensures-bind (map_err CommitError.storage (insert_transaction db (row_of db batch))) _
        (λ db₁ e₁.
          Ensures-bind
            (apply_operations batch.transaction_id batch.committed_at_ms db₁ vs batch.operations) _
            (λ s e₂. Ensures-ok _ _ refl (
              SameJobs-JobsOk s.0 _
                ((apply_operations-JobsOk batch.transaction_id batch.committed_at_ms
                    batch.operations db₁ vs
                    (SameJobs-JobsOk db db₁ h (
                      (Ensures-map_err CommitError.storage _
                          (insert_transaction-SameJobs db (row_of db batch))).at
                        db₁ e₁))
                    w).at
                  s e₂)
                (write_streams-SameJobs s.1 s.0)))))

finish_commit-JobsOk :
    (fate : Fate) (db : Db) (batch : CommitBatch) (m : Result Db CommitError)
    → JobsOk db
    → Ensures JobsOk m
    → JobsOk (finish_commit fate db batch m).1
unfolding finish_commit settle
finish_commit-JobsOk fate db batch (err e) h k = h
finish_commit-JobsOk busy db batch (ok d) h k = h
finish_commit-JobsOk commits db batch (ok d) h k = k.at d refl
finish_commit-JobsOk unknown_kept db batch (ok d) h k = k.at d refl
finish_commit-JobsOk unknown_lost db batch (ok d) h k = h

resubmit-JobsOk :
    (fate : Fate) (db : Db) (batch : CommitBatch) (o : Option TransactionRow)
    → JobsOk db
    → All WordSized batch.operations
    → JobsOk (resubmit fate db batch o).1
unfolding resubmit
resubmit-JobsOk fate db batch none h w =
    finish_commit-JobsOk fate db batch (write_batch db batch) h (write_batch-JobsOk db batch h w)
resubmit-JobsOk fate db batch (some r) h w =
    elim (Bool-cases (bytes_eq r.request_digest (request_digest batch))) [
      | inl e ↦ rw e h
      | inr e ↦ rw e h
    ]

begin_commit-JobsOk :
    (fate : Fate) (db : Db) (batch : CommitBatch)
    → JobsOk db
    → All WordSized batch.operations
    → JobsOk (begin_commit fate db batch).1
unfolding begin_commit
begin_commit-JobsOk busy db batch h w = h
begin_commit-JobsOk commits db batch h w = resubmit-JobsOk commits db batch _ h w
begin_commit-JobsOk unknown_kept db batch h w = resubmit-JobsOk unknown_kept db batch _ h w
begin_commit-JobsOk unknown_lost db batch h w = resubmit-JobsOk unknown_lost db batch _ h w

validated :
    (m : Result (Unit {0}) ValidationError) (p : Result CommitReceipt CommitError × Db) (db : Db)
    → JobsOk db
    → JobsOk p.1
    → JobsOk
        (elim m as (λ _. Result CommitReceipt CommitError × Db) [
          | ok _ ↦ p
          | err e ↦ (err (CommitError.validation e), db)
        ]).1
validated (ok _) p db h k = k
validated (err e) p db h k = h

-- On tables that meet `JobsOk`, and for a batch whose attempt limits are 32-bit words, the
-- tables after `commit` meet `JobsOk` again, whatever becomes of the transaction.
pub commit-JobsOk :
    (limits : Limits) (fate : Fate) (db : Db) (batch : CommitBatch)
    → JobsOk db
    → All WordSized batch.operations
    → JobsOk (commit limits fate db batch).1
unfolding commit
commit-JobsOk limits fate db batch h w =
    validated (validate_batch limits batch) _ db h (begin_commit-JobsOk fate db batch h w)
