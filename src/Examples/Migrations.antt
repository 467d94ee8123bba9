-- ===== src/Examples/Migrations.antt =====
-- Migrations of a new file.
use minisqlite.Base.{
  ℕ, ◌≡◌, refl, pos, ℤ, Bytes, List, [], ◌∷◌, none, true, Result, ok, All, arith, length,
}
use minisqlite.Errors.{StorageError}
use minisqlite.Store.Schema.{Fate, commits, unknown_lost}
use minisqlite.Store.Migrations.{
  Migration, MigrationStatus, File, create_table, migrate, require_current, status,
}
use minisqlite.Store.Migrations.Statements.{migrations}
use minisqlite.Store.Migrations.Steps.{Steps, migrate-Steps}
use minisqlite.Store.Migrations.Migrated.{migrate-migrate}

-- A schema that is the list of the texts that were executed.
abbrev execute : Bytes → List Bytes → Result (List Bytes) StorageError
execute sql schema = ok (sql ∷ schema)

abbrev new_file : File (List Bytes)
new_file = record { schema_migrations = none; schema = [] }

abbrev succeeds : ℕ → Fate
succeeds v = commits

abbrev lost : ℕ → Fate
lost v = unknown_lost

abbrev clock : ℕ → ℤ
clock v = pos v

abbrev migrated : File (List Bytes)
migrated = (migrate execute succeeds clock migrations new_file).1

migrate-Steps_example :
    Steps execute (create_table new_file) (migrate execute succeeds clock migrations new_file).1
migrate-Steps_example = migrate-Steps execute succeeds clock migrations new_file

migrate-migrate_example :
    (migrate execute lost clock migrations migrated ≡ (ok tt, migrated))
    × (require_current migrations migrated ≡ ok tt)
    × (found : List MigrationStatus) × (status migrations migrated ≡ ok found)
    × All (λ s. s.checksum_ok ≡ true) found
    × (length found ≡ length migrations)
unfolding migrate migrations minisqlite.Store.Migrations.supported
    minisqlite.Store.Migrations.current_version minisqlite.Sql.max_of minisqlite.Sql.find_row
migrate-migrate_example =
    migrate-migrate execute succeeds lost clock clock migrations new_file
      (omega arith, (omega arith, tt)) refl
