-- ===== src/Projection.antt =====
-- src/projection.rs: versioned patches of projections and their static validation.
use minisqlite.Base.{
  ℕ, ◌+◌, ◌-◌, ◌%◌, ◌^◌, Bytes, bytes_eq, List, [], ◌∷◌, Bool, false, not, ◌||◌, ◌==◌, ltb,
  if◌then◌else◌, Result, ok, err, reject_if, ◌>>=◌, ◌>>◌,
}
use minisqlite.Errors.{ValidationError, patch_version, duplicate_key, replace_duplicate_key}

pub record ProjectionEntry : Type 0 where
  pub key : Bytes
  pub value : Bytes

pub data ProjectionMutation : Type 0 where
  put : Bytes → Bytes → ProjectionMutation
  delete : Bytes → ProjectionMutation
  clear : ProjectionMutation
  replace : List ProjectionEntry → ProjectionMutation

pub record ProjectionPatch : Type 0 where
  pub projection : Bytes
  pub expected_version : ℕ
  pub new_version : ℕ
  pub mutations : List ProjectionMutation

-- `ProjectionPatch::new`; `saturating_add` stays at the largest word.
unfoldable pub new : Bytes → ℕ → ProjectionPatch
new projection expected_version = record {
  projection = projection;
  expected_version = expected_version;
  new_version = if ltb (expected_version + 1) (2 ^ 64) then expected_version + 1 else 2 ^ 64 - 1;
  mutations = [];
}

-- The set `seen`: its keys, each once.
unfoldable pub contains : Bytes → List Bytes → Bool
contains k [] = false
contains k (s ∷ seen) = bytes_eq s k || contains k seen

-- The inner loop over the entries of a `Replace`: `seen` after it, or the error.
unfoldable pub replace_keys :
    Bytes → List Bytes → List ProjectionEntry → Result (List Bytes) ValidationError
unfolding contains
replace_keys name seen [] = ok seen
replace_keys name seen (e ∷ es) =
    if contains e.key seen
    then err (replace_duplicate_key name)
    else replace_keys name (e.key ∷ seen) es

-- One round of the loop over the mutations.
unfoldable pub track_key :
    Bytes → List Bytes → ProjectionMutation → Result (List Bytes) ValidationError
unfolding contains replace_keys
track_key name seen (put key value) =
    if contains key seen then err (duplicate_key name) else ok (key ∷ seen)
track_key name seen (delete key) =
    if contains key seen then err (duplicate_key name) else ok (key ∷ seen)
track_key name seen clear = ok []
track_key name seen (replace entries) = replace_keys name [] entries

unfoldable pub track_keys :
    Bytes → List Bytes → List ProjectionMutation → Result (List Bytes) ValidationError
unfolding track_key
track_keys name seen [] = ok seen
track_keys name seen (m ∷ ms) = do seen' ← track_key name seen m; track_keys name seen' ms

-- `ProjectionPatch::validate`.
unfoldable pub validate : ProjectionPatch → Result (Unit {0}) ValidationError
unfolding track_keys
validate p = do
  reject_if (not (p.new_version == (p.expected_version + 1) % 2 ^ 64) || p.new_version == 0)
      (patch_version p.projection p.new_version p.expected_version)
  seen ← track_keys p.projection [] p.mutations
  ok tt
