-- ===== src/Store/Migrations.antt =====
-- src/store/migrations.rs: applying the migrations to a file, and their status. What SQLite makes
-- of the SQL text of a migration, `execute_batch`, is a parameter.
pub mod Statements
pub mod Steps
pub mod Migrated
pub mod Recorded
use minisqlite.Base.{
  ℕ, ◌+◌, ℤ, pos, Bytes, bytes_eq, Bool, true, false, List, [], ◌∷◌, ◌++◌, Option, none, some,
  is_none, unwrap_or, ltb, ◌==◌, if◌then◌else◌, Result, ok, err, ok_or, reject_if, ◌>>=◌, ◌>>◌,
}
use minisqlite.Sql.{find_row, max_of}
use minisqlite.Errors.{
  StorageError, sqlite, commit_failed, no_such_table, migration_checksum_mismatch, schema_too_new,
  schema_too_old,
}
use minisqlite.Store.Schema.{Fate, busy, commits, unknown_kept, unknown_lost, settle}
use minisqlite.Store.Checksum.{checksum}

pub record Migration : Type 0 where
  pub version : ℕ
  pub sql : Bytes

-- A row of `schema_migrations`.
pub record MigrationRow : Type 0 where
  pub version : ℕ
  pub applied_at_ms : ℤ
  pub checksum : Bytes

pub record MigrationStatus : Type 0 where
  pub version : ℕ
  pub applied_at_ms : ℤ
  pub checksum_ok : Bool

-- A database file: the table of migrations, if it is there, and everything else.
pub record File (S : Type 0) : Type 0 where
  pub schema_migrations : Option (List MigrationRow)
  pub schema : S

unfoldable pub rows_of : {S : Type 0} → File S → List MigrationRow
rows_of file = unwrap_or file.schema_migrations []

-- `SELECT COALESCE(MAX(version), 0) FROM schema_migrations`, 0 also when there is no table.
unfoldable pub current_version : {S : Type 0} → File S → ℕ
unfolding rows_of
current_version file = max_of (λ r. r.version) (rows_of file)

-- `MIGRATIONS.last().map(|m| m.version).unwrap_or(0)`.
unfoldable pub supported : List Migration → ℕ
supported [] = 0
supported (m ∷ []) = m.version
supported (m ∷ n ∷ ms) = supported (n ∷ ms)

abbrev pub has_version : ℕ → MigrationRow → Bool
has_version v r = r.version == v

-- `CREATE TABLE IF NOT EXISTS schema_migrations`.
unfoldable pub create_table : {S : Type 0} → File S → File S
unfolding rows_of
create_table file = record file { schema_migrations = some (rows_of file) }

unfoldable pub require_current :
    {S : Type 0} → List Migration → File S → Result (Unit {0}) StorageError
unfolding current_version supported
require_current migrations file = do
  reject_if (ltb (supported migrations) (current_version file))
      (schema_too_new (current_version file) (supported migrations))
  reject_if (ltb (current_version file) (supported migrations))
      (schema_too_old (current_version file) (supported migrations))
  ok tt

abbrev pub status_row : Migration → MigrationRow → MigrationStatus
status_row m r = record {
  version = m.version;
  applied_at_ms = r.applied_at_ms;
  checksum_ok = bytes_eq r.checksum (checksum m.sql);
}

abbrev pub push_status :
    Migration → Option MigrationRow → List MigrationStatus → List MigrationStatus
push_status m none rest = rest
push_status m (some r) rest = status_row m r ∷ rest

unfoldable pub statuses : List Migration → List MigrationRow → List MigrationStatus
statuses [] rows = []
statuses (m ∷ ms) rows = push_status m (find_row (has_version m.version) rows) (statuses ms rows)

unfoldable pub status :
    {S : Type 0} → List Migration → File S → Result (List MigrationStatus) StorageError
unfolding statuses
status [] file = ok []
status (m ∷ ms) file =
    ok_or file.schema_migrations (sqlite no_such_table) >>= λ rows. ok (statuses (m ∷ ms) rows)

-- The row that is written with the SQL of a migration.
unfoldable pub record_of : Migration → ℤ → MigrationRow
record_of m now = record { version = m.version; applied_at_ms = now; checksum = checksum m.sql }

unfoldable pub applied : {S : Type 0} → File S → Migration → ℤ → S → File S
unfolding rows_of record_of
applied file m now s = record {
  schema_migrations = some (rows_of file ++ record_of m now ∷ []);
  schema = s;
}

module _ {S : Type 0} (execute_batch : Bytes → S → Result S StorageError) where
  -- What a migration's transaction returns and leaves, from the result of its SQL.
  unfoldable pub finish_migration :
      Fate
      → File S
      → Migration
      → ℤ
      → Result S StorageError
      → Result (Unit {0}) StorageError × File S
  unfolding applied settle
  finish_migration busy file m now r = (err (sqlite commit_failed), file)
  finish_migration fate file m now (err e) = (err e, file)
  finish_migration commits file m now (ok s) = (ok tt, settle commits file (applied file m now s))
  finish_migration fate file m now (ok s) =
      (err (sqlite commit_failed), settle fate file (applied file m now s))

  -- `?` on a step that changes the file.
  abbrev pub and_then :
      Result (Unit {0}) StorageError × File S
      → (File S → Result (Unit {0}) StorageError × File S)
      → Result (Unit {0}) StorageError × File S
  and_then (ok u, file) k = k file
  and_then (err e, file) k = (err e, file)

  -- One round of the loop: the row that is there is compared, or the migration is applied.
  unfoldable pub migrate_one :
      Fate → ℤ → Migration → File S → Option MigrationRow → Result (Unit {0}) StorageError × File S
  unfolding finish_migration
  migrate_one fate now m file (some r) =
      if bytes_eq r.checksum (checksum m.sql)
      then (ok tt, file)
      else (err (migration_checksum_mismatch m.version), file)
  migrate_one fate now m file none =
      finish_migration fate file m now (execute_batch m.sql file.schema)

  -- The loop; the fate of a transaction and the clock are given for each version.
  unfoldable pub migrate_all :
      (ℕ → Fate) → (ℕ → ℤ) → List Migration → File S → Result (Unit {0}) StorageError × File S
  unfolding migrate_one rows_of
  migrate_all fate now [] file = (ok tt, file)
  migrate_all fate now (m ∷ ms) file =
      and_then
        (migrate_one (fate m.version) (now m.version) m file
          (find_row (has_version m.version) (rows_of file)))
        (λ file'. migrate_all fate now ms file')

  unfoldable pub migrate :
      (ℕ → Fate) → (ℕ → ℤ) → List Migration → File S → Result (Unit {0}) StorageError × File S
  unfolding migrate_all create_table current_version supported
  migrate fate now migrations file =
      if ltb (supported migrations) (current_version file)
      then (err (schema_too_new (current_version file) (supported migrations)), create_table file)
      else migrate_all fate now migrations (create_table file)
