-- ===== src/Store/Projections.antt =====
-- src/store/projections.rs: applying patches, and reads.
pub mod Prefix
pub mod Scan
pub mod Version
pub mod View
pub mod Patched
use minisqlite.Base.{
  ℕ, ◌^◌, Bytes, bytes_eq, bytes_lt, bytes_le, List, [], ◌∷◌, ◌++◌, map, Option, none, some, Bool,
  true, false, not, ◌==◌, ◌&&◌, as_i64, unwrap_or, length, if◌then◌else◌, Result, ok, err, map_err,
  reject_if, guard, ◌>>=◌, ◌>>◌,
}
use mathlib.Core.Option
use minisqlite.Sql
use minisqlite.Sql.{select, find_row, exists_row, upsert, order_by, limit_rows}
use minisqlite.Errors.{
  Error, StorageError, sqlite, unique_violation, foreign_key_violation, projection_version,
}
use minisqlite.Projection.{
  ProjectionEntry, ProjectionMutation, ProjectionPatch, put, delete, clear, replace, validate,
}
use minisqlite.Store.Schema.{Db, EntryRow, MetaRow}
use Prefix.{prefix_upper_bound}

abbrev pub is_meta : Bytes → MetaRow → Bool
is_meta projection m = bytes_eq m.projection projection

abbrev pub in_projection : Bytes → EntryRow → Bool
in_projection projection e = bytes_eq e.projection projection

abbrev pub is_entry : Bytes → Bytes → EntryRow → Bool
is_entry projection key e = bytes_eq e.projection projection && bytes_eq e.key key

unfoldable pub version_query : Db → Bytes → ℕ
version_query db projection =
    unwrap_or (Option.map (λ m. m.version) (find_row (is_meta projection) db.projection_meta)) 0

unfoldable pub set_version : Bytes → ℕ → Db → Db
set_version projection version db = record db {
  projection_meta =
      upsert (is_meta projection) (record { projection = projection; version = version })
        (λ m. record m { version = version }) db.projection_meta;
}

-- `INSERT ... ON CONFLICT(projection, key) DO UPDATE`; the projection must have a version row.
unfoldable pub put_entry : Db → Bytes → Bytes → Bytes → Result Db StorageError
put_entry db projection key value = do
  guard (exists_row (is_meta projection) db.projection_meta) (sqlite foreign_key_violation)
  ok (record db {
    projection_entries =
        upsert (is_entry projection key)
          (record { projection = projection; key = key; value = value })
          (λ e. record e { value = value }) db.projection_entries;
  })

unfoldable pub delete_entry : Db → Bytes → Bytes → Db
delete_entry db projection key = record db {
  projection_entries = Sql.delete (is_entry projection key) db.projection_entries;
}

unfoldable pub clear_entries : Db → Bytes → Db
clear_entries db projection = record db {
  projection_entries = Sql.delete (in_projection projection) db.projection_entries;
}

-- The plain `INSERT` of a `Replace`.
unfoldable pub insert_entry : Db → Bytes → ProjectionEntry → Result Db StorageError
insert_entry db projection entry = do
  reject_if (exists_row (is_entry projection entry.key) db.projection_entries)
      (sqlite unique_violation)
  guard (exists_row (is_meta projection) db.projection_meta) (sqlite foreign_key_violation)
  ok (record db {
    projection_entries =
        db.projection_entries
        ++ record { projection = projection; key = entry.key; value = entry.value } ∷ [];
  })

unfoldable pub insert_entries : Db → Bytes → List ProjectionEntry → Result Db StorageError
unfolding insert_entry
insert_entries db projection [] = ok db
insert_entries db projection (e ∷ es) = do
  db' ← insert_entry db projection e
  insert_entries db' projection es

unfoldable pub apply_mutation : Db → Bytes → ProjectionMutation → Result Db StorageError
unfolding put_entry delete_entry clear_entries insert_entries
apply_mutation db projection (put key value) = put_entry db projection key value
apply_mutation db projection (delete key) = ok (delete_entry db projection key)
apply_mutation db projection clear = ok (clear_entries db projection)
apply_mutation db projection (replace entries) =
    insert_entries (clear_entries db projection) projection entries

unfoldable pub apply_mutations : Db → Bytes → List ProjectionMutation → Result Db StorageError
unfolding apply_mutation
apply_mutations db projection [] = ok db
apply_mutations db projection (m ∷ ms) = do
  db' ← apply_mutation db projection m
  apply_mutations db' projection ms

unfoldable pub apply_projection_patch : Db → ProjectionPatch → Result Db Error
unfolding version_query set_version apply_mutations
apply_projection_patch db patch = do
  map_err Error.validation (validate patch)
  reject_if (not (version_query db patch.projection == patch.expected_version)) (
      Error.conflict (
        projection_version patch.projection patch.expected_version
          (version_query db patch.projection)))
  map_err Error.storage (
      apply_mutations (set_version patch.projection patch.new_version db) patch.projection
        patch.mutations)

unfoldable pub projection_get : Db → Bytes → Bytes → Option Bytes
projection_get db projection key =
    Option.map (λ e. e.value) (find_row (is_entry projection key) db.projection_entries)

-- The optional conditions of `scan`.
abbrev pub from_start : Option Bytes → Bytes → Bool
from_start none key = true
from_start (some start) key = bytes_le start key

abbrev pub before_end : Option Bytes → Bytes → Bool
before_end none key = true
before_end (some end) key = bytes_lt key end

abbrev pub past : Option Bytes → Bytes → Bool
past none key = true
past (some after) key = bytes_lt after key

unfoldable pub in_scan : Bytes → Option Bytes → Option Bytes → Option Bytes → EntryRow → Bool
in_scan projection start end after e =
    in_projection projection e
    && (from_start start e.key && (before_end end e.key && past after e.key))

unfoldable pub entry_of : EntryRow → ProjectionEntry
entry_of e = record { key = e.key; value = e.value }

unfoldable pub scan :
    Db → Bytes → Option Bytes → Option Bytes → Option Bytes → ℕ → List ProjectionEntry
unfolding in_scan entry_of
scan db projection start end after limit = map entry_of (
    limit_rows (as_i64 limit) (
      order_by (λ a b. bytes_le a.key b.key)
        (select (in_scan projection start end after) db.projection_entries)))

unfoldable pub projection_scan_range :
    Db → Bytes → Option Bytes → Option Bytes → Option Bytes → ℕ → List ProjectionEntry
unfolding scan
projection_scan_range db projection start end after limit = scan db projection start end after limit

unfoldable pub projections_list : Db → List (Bytes × ℕ)
projections_list db =
    map (λ m. (m.projection, m.version))
      (order_by (λ a b. bytes_le a.projection b.projection) db.projection_meta)

unfoldable pub projection_scan_prefix_page :
    Db → Bytes → Bytes → Option Bytes → ℕ → List ProjectionEntry
unfolding scan
projection_scan_prefix_page db projection prefix after limit =
    scan db projection (some prefix) (prefix_upper_bound prefix) after limit

unfoldable pub projection_scan_prefix : Db → Bytes → Bytes → ℕ → List ProjectionEntry
unfolding projection_scan_prefix_page
projection_scan_prefix db projection prefix limit =
    projection_scan_prefix_page db projection prefix none limit

unfoldable pub projection_entry_count : Db → Bytes → ℕ
projection_entry_count db projection =
    length (select (in_projection projection) db.projection_entries)
