-- ===== src/Store/Projections/Version.antt =====
-- The version of a projection under `apply_projection_patch` of src/store/projections.rs.
use minisqlite.Base.{
  ℕ, ◌+◌, ◌%◌, ◌^◌, ◌≡◌, refl, ap, ◌∙◌, Bool, true, false, not, ◌||◌, ◌==◌, Bytes, bytes_eq_refl,
  List, [], ◌∷◌, some, arith, Bool-cases, inl, inr, unwrap_or, Result, ok, err, map_err, reject_if,
  >>=-eq-ok, Ensures, Ensures-bind, Ensures-ok, Ensures-guard, Ensures-reject_if, Ensures-map_err,
}
use mathlib.Core.Option
use minisqlite.Errors.{Error, projection_version, patch_version}
use minisqlite.Projection.{
  ProjectionEntry, ProjectionMutation, ProjectionPatch, put, delete, clear, replace, validate,
}
use minisqlite.Sql.{find_row, exists_row, upsert}
use minisqlite.Store.Schema.{Db, MetaRow}
use minisqlite.Store.Projections.{
  version_query, set_version, put_entry, delete_entry, clear_entries, insert_entry, insert_entries,
  apply_mutation, apply_mutations, apply_projection_patch, is_meta, is_entry,
}

-- The mutations leave the versions alone.
abbrev Kept : Db → Db → Type 0
Kept db db' = db'.projection_meta ≡ db.projection_meta

insert_entry-Kept :
    (db : Db) (p : Bytes) (e : ProjectionEntry) → Ensures (Kept db) (insert_entry db p e)
unfolding insert_entry
insert_entry-Kept db p e =
    Ensures-reject_if (exists_row (is_entry p e.key) db.projection_entries) _ _ (λ _.
      Ensures-guard (exists_row (is_meta p) db.projection_meta) _ _ (λ _. Ensures-ok _ _ refl refl))

insert_entries-Kept :
    (es : List ProjectionEntry) (db : Db) (p : Bytes) → Ensures (Kept db) (insert_entries db p es)
unfolding insert_entries
insert_entries-Kept [] db p = Ensures-ok _ db refl refl
insert_entries-Kept (e ∷ es) db p = Ensures-bind (insert_entry db p e) _ (λ d q. record {
  at = λ d' q'. (insert_entries-Kept es d p).at d' q' ∙ (insert_entry-Kept db p e).at d q;
})

apply_mutation-Kept :
    (m : ProjectionMutation) (db : Db) (p : Bytes) → Ensures (Kept db) (apply_mutation db p m)
unfolding apply_mutation put_entry delete_entry clear_entries
apply_mutation-Kept (put k v) db p =
    Ensures-guard (exists_row (is_meta p) db.projection_meta) _ _ (λ _. Ensures-ok _ _ refl refl)
apply_mutation-Kept (delete k) db p = Ensures-ok _ _ refl refl
apply_mutation-Kept clear db p = Ensures-ok _ _ refl refl
apply_mutation-Kept (replace es) db p = insert_entries-Kept es (clear_entries db p) p

apply_mutations-Kept :
    (ms : List ProjectionMutation) (db : Db) (p : Bytes)
    → Ensures (Kept db) (apply_mutations db p ms)
unfolding apply_mutations
apply_mutations-Kept [] db p = Ensures-ok _ db refl refl
apply_mutations-Kept (m ∷ ms) db p = Ensures-bind (apply_mutation db p m) _ (λ d q. record {
  at = λ d' q'. (apply_mutations-Kept ms d p).at d' q' ∙ (apply_mutation-Kept m db p).at d q;
})

find_row-upsert :
    (p : Bytes) (v : ℕ) (xs : List MetaRow)
    → Option.map
        (λ (m : MetaRow). m.version)
        (find_row (is_meta p) (
          upsert
            (is_meta p)
            (record { projection = p; version = v })
            (λ m. record m { version = v })
            xs))
      ≡ some v
unfolding find_row upsert
find_row-upsert p v [] = rw (bytes_eq_refl p) refl
find_row-upsert p v (x ∷ xs) = elim (Bool-cases (is_meta p x)) [
  | inl e ↦ rw (e, e) refl
  | inr e ↦ rw (e, e) (find_row-upsert p v xs)
]

set_version-query : (p : Bytes) (v : ℕ) (db : Db) → version_query (set_version p v db) p ≡ v
unfolding version_query set_version
set_version-query p v db = ap (λ o. unwrap_or o 0) (find_row-upsert p v db.projection_meta)

query-Kept : (db db' : Db) (p : Bytes) → Kept db db' → version_query db' p ≡ version_query db p
unfolding version_query
query-Kept db db' p k = rw k refl

unrejected : {E : Type 0} (b : Bool) (e : E) (u : Unit {0}) → reject_if b e ≡ ok u → b ≡ false
unrejected true e u h = cc
unrejected false e u h = refl

unmapped :
    {A : Type 0} {E : Type 0} {F : Type 0} (f : E → F) (m : Result A E) (a : A)
    → map_err f m ≡ ok a
    → m ≡ ok a
unmapped f (ok x) a e = cc
unmapped f (err x) a e = cc

validate-version :
    (p : ProjectionPatch) (u : Unit {0})
    → validate p ≡ ok u
    → p.new_version ≡ (p.expected_version + 1) % 2 ^ 64
unfolding validate
validate-version p u e =
    let a =
      >>=-eq-ok
        (reject_if (not (p.new_version == (p.expected_version + 1) % 2 ^ 64) || p.new_version == 0)
          (patch_version p.projection p.new_version p.expected_version))
        _ e in
    ground (arith, unrejected _ _ a.0 a.1)

-- A patch that is applied found the projection at its expected version, and afterwards the
-- version of the projection is one more, as a 64-bit word.
pub apply_projection_patch-version :
    (db db' : Db) (p : ProjectionPatch)
    → apply_projection_patch db p ≡ ok db'
    → (version_query db p.projection ≡ p.expected_version)
      × (version_query db' p.projection ≡ (p.expected_version + 1) % 2 ^ 64)
unfolding apply_projection_patch
apply_projection_patch-version db db' p e =
    let a = >>=-eq-ok (map_err Error.validation (validate p)) _ e in
    let b =
      >>=-eq-ok
        (reject_if (not (version_query db p.projection == p.expected_version)) (
          Error.conflict
            (projection_version p.projection p.expected_version (version_query db p.projection))))
        _ a.2 in
    (
      ground (arith, unrejected _ _ b.0 b.1),
      query-Kept (set_version p.projection p.new_version db) db' p.projection (
            (Ensures-map_err Error.storage _ (
                apply_mutations-Kept p.mutations (set_version p.projection p.new_version db)
                  p.projection)).at
              db' b.2)
          ∙ set_version-query p.projection p.new_version db
          ∙ validate-version p a.0 (unmapped Error.validation (validate p) a.0 a.1),
    )
