-- ===== src/Store/Commit/Frame.antt =====
-- The `transactions` table under the operations of a batch (src/store/commit.rs).
use minisqlite.Base.{
  ℕ, ℤ, ◌^◌, ◌+◌, ◌≡◌, refl, not, ◌==◌, ltb, ltb_ℤ, leb_ℤ, is_id, unwrap_or, i64_min, is_some, List,
  [], ◌∷◌, Bytes, Result, ok, err, map_err, ok_or, ◌∙◌, subst, ok-injective, Ensures, Ensures-bind,
  Ensures-ok, Ensures-guard, Ensures-reject_if, Ensures-map_err, Bool-cases, inl, inr,
}
use minisqlite.Id.{Id128}
use minisqlite.Errors.{Error, CommitError, LeaseError, job_not_found}
use minisqlite.Event.{Event}
use minisqlite.Jobs.{JobSpec, LeaseExtension}
use minisqlite.Jobs.State.{is_leased}
use minisqlite.Projection.{
  ProjectionEntry, ProjectionMutation, ProjectionPatch, put, delete, clear, replace, validate,
}
use minisqlite.Sql.{exists_row}
use minisqlite.Transaction.{
  Operation, append_event, projection_patch, enqueue_job, ack_job, fail_job, cancel_job,
  resolve_job, extend_lease,
}
use minisqlite.Store.Schema.{Db}
use minisqlite.Store.Events.{insert_event, has_event_id, at_version}
use minisqlite.Store.Projections.{
  version_query, set_version, put_entry, delete_entry, clear_entries, insert_entry, insert_entries,
  apply_mutation, apply_mutations, apply_projection_patch, is_meta, is_entry,
}
use minisqlite.Store.Jobs.Table.{
  load_job, has_transaction_id, update_job, insert_partition, new_row, is_partition,
}
use minisqlite.Store.Jobs.Ops.{apply_enqueue, next_sequence}
use minisqlite.Store.Jobs.Lease.{apply_extend_lease, with_expiry, extend_receipts}
use minisqlite.Store.Commit.Apply.{
  State, Versions, append, known_version, keep_versions, keep_extension, apply_operation,
  apply_operations, write_streams,
}
use minisqlite.Store.Jobs.Frame.{
  Same, bind-Same, update_job-Same, apply_ack-Same, apply_cancel-Same, apply_fail-Same,
  apply_resolve-Same, insert_job-Same,
}

module _ (db : Db) where
  insert_event-Same : (t : Id128) (e : Event) (v : ℕ) → Ensures (Same db) (insert_event db t e v)
  unfolding insert_event
  insert_event-Same t e v =
      Ensures-reject_if (exists_row (has_event_id e.event_id) db.events) _ _ (λ _.
        Ensures-reject_if (exists_row (at_version e.stream_id v) db.events) _ _ (λ _.
          Ensures-guard (exists_row (has_transaction_id t) db.transactions) _ _
            (λ _. Ensures-ok _ _ refl refl)))

  insert_entry-Same : (p : Bytes) (e : ProjectionEntry) → Ensures (Same db) (insert_entry db p e)
  unfolding insert_entry
  insert_entry-Same p e =
      Ensures-reject_if (exists_row (is_entry p e.key) db.projection_entries) _ _ (λ _.
        Ensures-guard (exists_row (is_meta p) db.projection_meta) _ _
          (λ _. Ensures-ok _ _ refl refl))

insert_partition-Same : (q p : Bytes) (n : ℕ) (db : Db) → Same db (insert_partition q p n db)
unfolding insert_partition
insert_partition-Same q p n db =
    elim (Bool-cases (exists_row (is_partition q p) db.active_partitions)) [
      | inl e ↦ rw e refl
      | inr e ↦ rw e refl
    ]

apply_enqueue-Same :
    (db : Db) (t : Id128) (spec : JobSpec) → Ensures (Same db) (apply_enqueue db t spec)
unfolding apply_enqueue
apply_enqueue-Same db t spec = Ensures-reject_if (is_some (load_job db spec.job_id)) _ _ (λ _.
    bind-Same db _ _
      (Ensures-map_err Error.storage _ (insert_job-Same db (new_row t (next_sequence db) spec)))
      (λ db'. Ensures-ok _ _ refl (insert_partition-Same _ _ _ db')))

insert_entries-Same :
    (es : List ProjectionEntry) (db : Db) (p : Bytes) → Ensures (Same db) (insert_entries db p es)
unfolding insert_entries
insert_entries-Same [] db p = Ensures-ok _ db refl refl
insert_entries-Same (e ∷ es) db p =
    bind-Same db _ _ (insert_entry-Same db p e) (λ db'. insert_entries-Same es db' p)

apply_mutation-Same :
    (m : ProjectionMutation) (db : Db) (p : Bytes) → Ensures (Same db) (apply_mutation db p m)
unfolding apply_mutation put_entry delete_entry clear_entries
apply_mutation-Same (put k v) db p =
    Ensures-guard (exists_row (is_meta p) db.projection_meta) _ _ (λ _. Ensures-ok _ _ refl refl)
apply_mutation-Same (delete k) db p = Ensures-ok _ _ refl refl
apply_mutation-Same clear db p = Ensures-ok _ _ refl refl
apply_mutation-Same (replace es) db p = insert_entries-Same es (clear_entries db p) p

apply_mutations-Same :
    (ms : List ProjectionMutation) (db : Db) (p : Bytes)
    → Ensures (Same db) (apply_mutations db p ms)
unfolding apply_mutations
apply_mutations-Same [] db p = Ensures-ok _ db refl refl
apply_mutations-Same (m ∷ ms) db p =
    bind-Same db _ _ (apply_mutation-Same m db p) (λ db'. apply_mutations-Same ms db' p)

apply_projection_patch-Same :
    (db : Db) (p : ProjectionPatch) → Ensures (Same db) (apply_projection_patch db p)
unfolding apply_projection_patch set_version
apply_projection_patch-Same db p = Ensures-bind (map_err Error.validation (validate p)) _ (λ _ _.
    Ensures-reject_if (not (version_query db p.projection == p.expected_version)) _ _ (λ _.
      Ensures-map_err Error.storage _ (
        apply_mutations-Same p.mutations (set_version p.projection p.new_version db) p.projection)))

apply_extend_lease-Same :
    (db : Db) (x : LeaseExtension) (now : ℤ)
    → Ensures (λ p. Same db p.1) (apply_extend_lease db x now)
unfolding apply_extend_lease extend_receipts
apply_extend_lease-Same db x now =
    Ensures-bind (ok_or (load_job db x.job_id) (LeaseError.conflict (job_not_found x.job_id))) _
      (λ job _. Ensures-reject_if (not (is_leased job.state)) _ _ (λ _.
        Ensures-reject_if (not (is_id job.lease_token x.lease_token)) _ _ (λ _.
          Ensures-reject_if (ltb_ℤ (unwrap_or job.lease_expires_at_ms i64_min) now) _ _ (λ _.
            Ensures-reject_if (leb_ℤ x.new_expiry_ms (unwrap_or job.lease_expires_at_ms i64_min)) _
              _
              (λ _.
                Ensures-bind
                  (map_err LeaseError.storage
                    (update_job x.job_id (with_expiry x.new_expiry_ms) db))
                  _
                  (λ db' e. Ensures-ok _ _ refl (
                    (Ensures-map_err LeaseError.storage _
                        (update_job-Same x.job_id (with_expiry x.new_expiry_ms) db)).at
                      db' e)))))))

keep_versions-Same :
    (db : Db) (vs : Versions) (m : Result Db Error)
    → Ensures (Same db) m
    → Ensures (λ (s : State). Same db s.0) (keep_versions vs m)
keep_versions-Same db vs (ok d) h = record {
  at = λ s e. subst (λ (q : State). Same db q.0) (ok-injective e) (h.at d refl);
}
keep_versions-Same db vs (err x) h = record { at = λ s e. cc }

keep_extension-Same :
    {A : Type 0} {E : Type 0} (f : E → CommitError) (db : Db) (vs : Versions)
    (m : Result (A × Db) E)
    → Ensures (λ (p : A × Db). Same db p.1) m
    → Ensures (λ (s : State). Same db s.0) (keep_extension f vs m)
keep_extension-Same f db vs (ok (a, d)) h = record {
  at = λ s e. subst (λ (q : State). Same db q.0) (ok-injective e) (h.at (a, d) refl);
}
keep_extension-Same f db vs (err x) h = record { at = λ s e. cc }

module _ (t : Id128) (now : ℤ) where
  append-Same :
      (db : Db) (vs : Versions) (e : Event)
      → Ensures (λ (s : State). Same db s.0) (append db vs t e)
  unfolding append
  append-Same db vs e =
      Ensures-reject_if (not (ltb (known_version db vs e.stream_id + 1) (2 ^ 64))) _ _ (λ _.
        Ensures-bind
          (map_err CommitError.storage (insert_event db t e (known_version db vs e.stream_id + 1)))
          _
          (λ db' q.
            Ensures-ok _ _ refl
              ((Ensures-map_err CommitError.storage _ (insert_event-Same db t e _)).at db' q)))

  apply_operation-Same :
      (db : Db) (vs : Versions) (o : Operation)
      → Ensures (λ (s : State). Same db s.0) (apply_operation t now db vs o)
  unfolding apply_operation
  apply_operation-Same db vs (append_event e) = append-Same db vs e
  apply_operation-Same db vs (projection_patch p) =
      keep_versions-Same db vs _ (apply_projection_patch-Same db p)
  apply_operation-Same db vs (enqueue_job j) =
      keep_versions-Same db vs _ (apply_enqueue-Same db t j)
  apply_operation-Same db vs (ack_job a) = keep_versions-Same db vs _ (apply_ack-Same db t now a)
  apply_operation-Same db vs (fail_job f) = keep_versions-Same db vs _ (apply_fail-Same db t now f)
  apply_operation-Same db vs (cancel_job c) =
      keep_versions-Same db vs _ (apply_cancel-Same db t now c)
  apply_operation-Same db vs (resolve_job r) =
      keep_versions-Same db vs _ (apply_resolve-Same db t now r)
  apply_operation-Same db vs (extend_lease x) =
      keep_extension-Same _ db vs _ (apply_extend_lease-Same db x now)

  pub apply_operations-Same :
      (os : List Operation) (db : Db) (vs : Versions)
      → Ensures
          (λ (s : State). s.0.transactions ≡ db.transactions)
          (apply_operations t now db vs os)
  unfolding apply_operations
  apply_operations-Same [] db vs = Ensures-ok _ _ refl refl
  apply_operations-Same (o ∷ os) db vs = Ensures-bind (apply_operation t now db vs o) _ (λ s e.
      record {
        at = λ s' q.
            (apply_operations-Same os s.0 s.1).at s' q ∙ (apply_operation-Same db vs o).at s e;
      })

pub write_streams-Same :
    (rs : Versions) (db : Db) → (write_streams rs db).transactions ≡ db.transactions
unfolding write_streams
write_streams-Same [] db = refl
write_streams-Same (r ∷ rs) db = write_streams-Same rs _
