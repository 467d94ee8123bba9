-- ===== src/Store/Projections/Patched.antt =====
-- Patches of src/store/projections.rs and the view that a reader has of the projections.
use minisqlite.Base.{
  ◌≡◌, refl, ◌∙◌, Bool-cases, inl, inr, Bytes, bytes_eq, List, [], ◌∷◌, none, not, ◌==◌, ok,
  map_err, reject_if, >>=-eq-ok, Ensures, Ensures-bind, Ensures-ok, Ensures-map_err,
}
use minisqlite.Errors.{Error, projection_version}
use minisqlite.Projection.{
  ProjectionEntry, ProjectionMutation, ProjectionPatch, put, delete, clear, replace, validate,
}
use minisqlite.Store.Schema.{Db}
use minisqlite.Store.Projections.{
  apply_mutation, apply_mutations, apply_projection_patch, clear_entries, projection_get,
  set_version, version_query,
}
use minisqlite.Store.Projections.View.{
  View, Shows, overwrite, lookup, mutate_view, mutate_views, fill, put_entry-Shows,
  delete_entry-Shows, clear_entries-Shows, insert_entries-Shows,
}

fill-cleared :
    (p : Bytes) (es : List ProjectionEntry) (view : View) (q j : Bytes)
    → fill p es (overwrite p (λ j. none) view) q j ≡ overwrite p (lookup es) view q j
fill-cleared p es view q j = elim (Bool-cases (bytes_eq p q)) [
  | inl e ↦ rw e refl
  | inr e ↦ rw e refl
]

apply_mutation-Shows :
    (m : ProjectionMutation) (view : View) (db : Db) (p : Bytes)
    → Shows view db
    → Ensures (Shows (mutate_view p m view)) (apply_mutation db p m)
unfolding apply_mutation mutate_view Shows
apply_mutation-Shows (put k v) view db p h = put_entry-Shows view db h p k v
apply_mutation-Shows (delete k) view db p h = Ensures-ok _ _ refl (delete_entry-Shows view db h p k)
apply_mutation-Shows clear view db p h = Ensures-ok _ _ refl (clear_entries-Shows view db h p)
apply_mutation-Shows (replace es) view db p h = record {
  at = λ d e q j.
      (insert_entries-Shows es (overwrite p (λ j. none) view) (clear_entries db p) p
          (clear_entries-Shows view db h p)).at
        d e q j
      ∙ fill-cleared p es view q j;
}

apply_mutations-Shows :
    (ms : List ProjectionMutation) (view : View) (db : Db) (p : Bytes)
    → Shows view db
    → Ensures (Shows (mutate_views p ms view)) (apply_mutations db p ms)
unfolding apply_mutations mutate_views
apply_mutations-Shows [] view db p h = Ensures-ok _ _ refl h
apply_mutations-Shows (m ∷ ms) view db p h = Ensures-bind (apply_mutation db p m) _ (λ d e.
    apply_mutations-Shows ms (mutate_view p m view) d p
      ((apply_mutation-Shows m view db p h).at d e))

-- After a patch that is applied, each key of each projection reads as its mutations, one after
-- the other, leave the map of projections and keys that was read before: a put and a delete
-- change one key, a clear empties the projection, a replacement is all that the projection has.
pub projection_get-apply_projection_patch :
    (db db' : Db) (patch : ProjectionPatch) (projection key : Bytes)
    → apply_projection_patch db patch ≡ ok db'
    → projection_get db' projection key
      ≡ mutate_views patch.projection patch.mutations (projection_get db) projection key
unfolding apply_projection_patch set_version projection_get Shows
projection_get-apply_projection_patch db db' patch projection key e =
    let a = >>=-eq-ok (map_err Error.validation (validate patch)) _ e in
    let b =
      >>=-eq-ok
        (reject_if (not (version_query db patch.projection == patch.expected_version)) (
          Error.conflict (
            projection_version patch.projection patch.expected_version
              (version_query db patch.projection))))
        _ a.2 in
    (Ensures-map_err Error.storage _ (
        apply_mutations-Shows patch.mutations (projection_get db)
          (set_version patch.projection patch.new_version db) patch.projection (λ q j. refl))).at
      db' b.2 projection key
