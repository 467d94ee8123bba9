-- ===== src/Store/Migrations/Steps.antt =====
-- The durable states of a file while `migrate` of src/store/migrations.rs runs.
use minisqlite.Base.{
  ℕ, ℤ, Bytes, bytes_eq, ◌≡◌, refl, sym, ◌∙◌, false, List, [], ◌∷◌, Option, none, some, is_some, ap,
  ltb, Bool-cases, inl, inr, Result, ok, err,
}
use minisqlite.Sql.{find_row, exists_row}
use minisqlite.Sql.Rows.{find_row-exists}
use minisqlite.Errors.{StorageError}
use minisqlite.Store.Schema.{Fate, busy, commits, unknown_kept, unknown_lost, settle}
use minisqlite.Store.Checksum.{checksum}
use minisqlite.Store.Migrations.{
  Migration, MigrationRow, File, rows_of, create_table, current_version, supported, has_version,
  applied, finish_migration, and_then, migrate_one, migrate_all, migrate,
}

module _ {S : Type 0} (execute_batch : Bytes → S → Result S StorageError) where
  -- From one file to another by whole migrations: the SQL of each was executed on the schema
  -- there was, and its row was written with it, where no row of its version was.
  pub data Steps (f : File S) : File S → Type 0 where
    here : Steps f f
    next :
        {g : File S}
        → Steps f g
        → (m : Migration) (now : ℤ) (s : S) → exists_row (has_version m.version) (rows_of g) ≡ false
        → execute_batch m.sql g.schema ≡ ok s
        → Steps f (applied g m now s)

  module _ (f : File S) where
    finish_migration-Steps :
        (fate : Fate) (g : File S) (m : Migration) (now : ℤ) (r : Result S StorageError)
        → execute_batch m.sql g.schema ≡ r
        → exists_row (has_version m.version) (rows_of g) ≡ false
        → Steps f g
        → Steps f (finish_migration execute_batch fate g m now r).1
    unfolding finish_migration settle
    finish_migration-Steps busy g m now r e n h = h
    finish_migration-Steps commits g m now (err x) e n h = h
    finish_migration-Steps unknown_kept g m now (err x) e n h = h
    finish_migration-Steps unknown_lost g m now (err x) e n h = h
    finish_migration-Steps commits g m now (ok s) e n h = next h m now s n e
    finish_migration-Steps unknown_kept g m now (ok s) e n h = next h m now s n e
    finish_migration-Steps unknown_lost g m now (ok s) e n h = h

    migrate_one-Steps :
        (fate : Fate) (now : ℤ) (m : Migration) (g : File S) (o : Option MigrationRow)
        → find_row (has_version m.version) (rows_of g) ≡ o
        → Steps f g
        → Steps f (migrate_one execute_batch fate now m g o).1
    unfolding migrate_one
    migrate_one-Steps fate now m g (some r) e h =
        elim (Bool-cases (bytes_eq r.checksum (checksum m.sql))) [ inl t ↦ rw t h | inr t ↦ rw t h ]
    migrate_one-Steps fate now m g none e h =
        finish_migration-Steps fate g m now (execute_batch m.sql g.schema) refl
          (sym (find_row-exists (has_version m.version) (rows_of g)) ∙ ap is_some e) h

    and_then-Steps :
        (p : Result (Unit {0}) StorageError × File S)
        (k : File S → Result (Unit {0}) StorageError × File S)
        → Steps f p.1
        → ((g : File S) → Steps f g → Steps f (k g).1)
        → Steps f (and_then execute_batch p k).1
    and_then-Steps (ok u, g) k h c = c g h
    and_then-Steps (err x, g) k h c = h

    migrate_all-Steps :
        (fate : ℕ → Fate) (now : ℕ → ℤ) (ms : List Migration) (g : File S)
        → Steps f g
        → Steps f (migrate_all execute_batch fate now ms g).1
    unfolding migrate_all
    migrate_all-Steps fate now [] g h = h
    migrate_all-Steps fate now (m ∷ ms) g h =
        and_then-Steps _ _ (migrate_one-Steps (fate m.version) (now m.version) m g _ refl h)
          (λ g' h'. migrate_all-Steps fate now ms g' h')

  -- Whatever `migrate` returns and whatever becomes of its transactions, the file is then
  -- reached from the one with the migrations table by whole migrations: each executed its SQL
  -- on the schema and wrote its row with it, where its version had no row.
  pub migrate-Steps :
      (fate : ℕ → Fate) (now : ℕ → ℤ) (ms : List Migration) (file : File S)
      → Steps (create_table file) (migrate execute_batch fate now ms file).1
  unfolding migrate
  migrate-Steps fate now ms file = elim (Bool-cases (ltb (supported ms) (current_version file))) [
    | inl e ↦ rw e here
    | inr e ↦ rw e (migrate_all-Steps (create_table file) fate now ms (create_table file) here)
  ]
