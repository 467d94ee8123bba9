-- ===== src/Store/Commit/SameJobs.antt =====
-- The job tables under the projection patches of src/store/projections.rs.
use minisqlite.Base.{
  ◌≡◌, refl, not, ◌==◌, List, [], ◌∷◌, Bytes, map_err, Ensures, Ensures-bind, Ensures-ok,
  Ensures-guard, Ensures-reject_if, Ensures-map_err,
}
use minisqlite.Errors.{Error}
use minisqlite.Projection.{
  ProjectionEntry, ProjectionMutation, ProjectionPatch, put, delete, clear, replace, validate,
}
use minisqlite.Sql.{exists_row}
use minisqlite.Transaction.{}
use minisqlite.Store.Schema.{Db}
use minisqlite.Store.Projections.{
  version_query, set_version, put_entry, delete_entry, clear_entries, insert_entry, insert_entries,
  apply_mutation, apply_mutations, apply_projection_patch, is_meta, is_entry,
}
use minisqlite.Store.Jobs.Invariant.{JobsOk}
use minisqlite.Store.Commit.Apply.{}
use minisqlite.Store.Commit.Run.{}

-- The job tables are those of another.
abbrev pub SameJobs : Db → Db → Type 0
SameJobs db db' = (db'.jobs ≡ db.jobs) × (db'.active_partitions ≡ db.active_partitions)

SameJobs-trans : (a b c : Db) → SameJobs a b → SameJobs b c → SameJobs a c
SameJobs-trans a b c h k = (cc (h.0, k.0), cc (h.1, k.1))

pub SameJobs-JobsOk : (db db' : Db) → JobsOk db → SameJobs db db' → JobsOk db'
SameJobs-JobsOk db db' h s = record {
  rows = rw s.0 h.rows;
  chain = rw s.0 h.chain;
  partitions = λ q p. rw (s.0, s.1) (h.partitions q p);
}

insert_entry-SameJobs :
    (db : Db) (p : Bytes) (e : ProjectionEntry) → Ensures (SameJobs db) (insert_entry db p e)
unfolding insert_entry
insert_entry-SameJobs db p e =
    Ensures-reject_if (exists_row (is_entry p e.key) db.projection_entries) _ _ (λ _.
      Ensures-guard (exists_row (is_meta p) db.projection_meta) _ _
        (λ _. Ensures-ok _ _ refl (refl, refl)))

insert_entries-SameJobs :
    (es : List ProjectionEntry) (db : Db) (p : Bytes)
    → Ensures (SameJobs db) (insert_entries db p es)
unfolding insert_entries
insert_entries-SameJobs [] db p = Ensures-ok _ db refl (refl, refl)
insert_entries-SameJobs (e ∷ es) db p = Ensures-bind (insert_entry db p e) _ (λ db₁ q. record {
  at = λ db₂ q₂.
      SameJobs-trans db db₁ db₂ ((insert_entry-SameJobs db p e).at db₁ q)
        ((insert_entries-SameJobs es db₁ p).at db₂ q₂);
})

apply_mutation-SameJobs :
    (m : ProjectionMutation) (db : Db) (p : Bytes) → Ensures (SameJobs db) (apply_mutation db p m)
unfolding apply_mutation put_entry delete_entry clear_entries
apply_mutation-SameJobs (put k v) db p =
    Ensures-guard (exists_row (is_meta p) db.projection_meta) _ _
      (λ _. Ensures-ok _ _ refl (refl, refl))
apply_mutation-SameJobs (delete k) db p = Ensures-ok _ _ refl (refl, refl)
apply_mutation-SameJobs clear db p = Ensures-ok _ _ refl (refl, refl)
apply_mutation-SameJobs (replace es) db p = insert_entries-SameJobs es (clear_entries db p) p

apply_mutations-SameJobs :
    (ms : List ProjectionMutation) (db : Db) (p : Bytes)
    → Ensures (SameJobs db) (apply_mutations db p ms)
unfolding apply_mutations
apply_mutations-SameJobs [] db p = Ensures-ok _ db refl (refl, refl)
apply_mutations-SameJobs (m ∷ ms) db p = Ensures-bind (apply_mutation db p m) _ (λ db₁ q. record {
  at = λ db₂ q₂.
      SameJobs-trans db db₁ db₂ ((apply_mutation-SameJobs m db p).at db₁ q)
        ((apply_mutations-SameJobs ms db₁ p).at db₂ q₂);
})

pub apply_projection_patch-SameJobs :
    (db : Db) (p : ProjectionPatch) → Ensures (SameJobs db) (apply_projection_patch db p)
unfolding apply_projection_patch set_version
apply_projection_patch-SameJobs db p =
    Ensures-bind (map_err Error.validation (validate p)) _ (λ _ _.
      Ensures-reject_if (not (version_query db p.projection == p.expected_version)) _ _ (λ _.
        Ensures-map_err Error.storage _ (
          apply_mutations-SameJobs p.mutations (set_version p.projection p.new_version db)
            p.projection)))
