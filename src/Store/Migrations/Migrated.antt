-- ===== src/Store/Migrations/Migrated.antt =====
-- A file after `migrate` of src/store/migrations.rs returned `Ok`.
use minisqlite.Base.{
  ℕ, ◌≤◌, ℤ, Bytes, bytes_eq, ◌≡◌, refl, sym, ◌∙◌, true, false, List, [], ◌∷◌, Option, none, some,
  is_some, ap, ltb, Bool-cases, inl, inr, Result, ok, err, All, arith, length,
}
use minisqlite.Sql.{find_row, exists_row, max_of}
use minisqlite.Sql.Rows.{find_row-exists, find_row-test, find_row-All, max_of-All}
use minisqlite.Errors.{StorageError}
use minisqlite.Store.Schema.{Fate, busy, commits, unknown_kept, unknown_lost, settle}
use minisqlite.Store.Checksum.{checksum}
use minisqlite.Store.Migrations.{
  Migration, MigrationRow, MigrationStatus, File, rows_of, create_table, current_version, supported,
  has_version, finish_migration, and_then, migrate_one, migrate_all, migrate, require_current,
  status, statuses,
}
use minisqlite.Store.Migrations.Recorded.{
  Recorded, Kept, Kept-refl, Kept-trans, Kept-applied, Recorded-applied, statuses-Recorded,
  status-created,
}

module _ {S : Type 0} (execute_batch : Bytes → S → Result S StorageError) where
  module _ (b : ℕ) where
    finish_migration-Recorded :
        (fate : Fate) (g : File S) (m : Migration) (now : ℤ) (r : Result S StorageError)
        → m.version ≤ b
        → exists_row (has_version m.version) (rows_of g) ≡ false
        → (finish_migration execute_batch fate g m now r).0 ≡ ok tt
        → Recorded (finish_migration execute_batch fate g m now r).1 m
          × Kept b g (finish_migration execute_batch fate g m now r).1
    unfolding finish_migration settle
    finish_migration-Recorded busy g m now r h n e = cc
    finish_migration-Recorded commits g m now (err x) h n e = cc
    finish_migration-Recorded unknown_kept g m now (err x) h n e = cc
    finish_migration-Recorded unknown_lost g m now (err x) h n e = cc
    finish_migration-Recorded commits g m now (ok s) h n e =
        (Recorded-applied g m now s n, Kept-applied b g m now s h)
    finish_migration-Recorded unknown_kept g m now (ok s) h n e = cc
    finish_migration-Recorded unknown_lost g m now (ok s) h n e = cc

    migrate_one-Recorded :
        (fate : Fate) (now : ℤ) (m : Migration) (g : File S) (o : Option MigrationRow)
        → m.version ≤ b
        → find_row (has_version m.version) (rows_of g) ≡ o
        → (migrate_one execute_batch fate now m g o).0 ≡ ok tt
        → Recorded (migrate_one execute_batch fate now m g o).1 m
          × Kept b g (migrate_one execute_batch fate now m g o).1
    unfolding migrate_one
    migrate_one-Recorded fate now m g (some r) h f e =
        elim (Bool-cases (bytes_eq r.checksum (checksum m.sql))) [
          | inl t ↦ rw t (record { row = r; found = f; matches = t }, Kept-refl b g)
          | inr t ↦ cc (rw t at e)
        ]
    migrate_one-Recorded fate now m g none h f e =
        finish_migration-Recorded fate g m now (execute_batch m.sql g.schema) h
          (sym (find_row-exists (has_version m.version) (rows_of g)) ∙ ap is_some f) e

    and_then-ok :
        (P Q : File S → Type 0) (p : Result (Unit {0}) StorageError × File S)
        (k : File S → Result (Unit {0}) StorageError × File S)
        → (p.0 ≡ ok tt → P p.1)
        → ((g : File S) → P g → (k g).0 ≡ ok tt → Q (k g).1)
        → (and_then execute_batch p k).0 ≡ ok tt
        → Q (and_then execute_batch p k).1
    and_then-ok P Q (ok tt, g) k h c e = c g (h refl) e
    and_then-ok P Q (err x, g) k h c e = cc

    migrate_all-Recorded :
        (fate : ℕ → Fate) (now : ℕ → ℤ) (ms : List Migration) (g : File S)
        → All (λ m. m.version ≤ b) ms
        → (migrate_all execute_batch fate now ms g).0 ≡ ok tt
        → All (Recorded (migrate_all execute_batch fate now ms g).1) ms
          × Kept b g (migrate_all execute_batch fate now ms g).1
    unfolding migrate_all
    migrate_all-Recorded fate now [] g h e = (tt, Kept-refl b g)
    migrate_all-Recorded fate now (m ∷ ms) g h e =
        and_then-ok (λ g'. Recorded g' m × Kept b g g')
          (λ g'. All (Recorded g') (m ∷ ms) × Kept b g g') _ _
          (migrate_one-Recorded (fate m.version) (now m.version) m g _ h.0 refl)
          (λ g' k e'.
            let l = migrate_all-Recorded fate now ms g' h.1 e' in
            ((l.1.recorded m k.0, l.0), Kept-trans b g g' _ k.1 l.1))
          e

  migrate_all-again :
      (fate : ℕ → Fate) (now : ℕ → ℤ) (ms : List Migration) (g : File S)
      → All (Recorded g) ms
      → migrate_all execute_batch fate now ms g ≡ (ok tt, g)
  unfolding migrate_all migrate_one
  migrate_all-again fate now [] g h = refl
  migrate_all-again fate now (m ∷ ms) g h =
      rw (h.0.found, h.0.matches) (migrate_all-again fate now ms g h.1)

Recorded-version :
    {S : Type 0} (g : File S) (m : Migration) → Recorded g m → m.version ≤ current_version g
unfolding current_version
Recorded-version g m r =
    let below =
      find_row-All (λ r. r.version ≤ max_of (λ r. r.version) (rows_of g)) (has_version m.version)
        (rows_of g) (max_of-All (λ r. r.version) (rows_of g)) r.found in
    ground (arith, below, find_row-test (has_version m.version) (rows_of g) r.found)

supported-Recorded :
    {S : Type 0} (ms : List Migration) (g : File S)
    → All (Recorded g) ms
    → supported ms ≤ current_version g
unfolding supported
supported-Recorded [] g h = omega arith
supported-Recorded (m ∷ []) g h = Recorded-version g m h.0
supported-Recorded (m ∷ n ∷ ms) g h = supported-Recorded (n ∷ ms) g h.1

-- The state in which a file is up to date.
record UpToDate {S : Type 0} (ms : List Migration) (g : File S) : Type 0 where
  recorded : All (Recorded g) ms
  created : create_table g ≡ g
  version : current_version g ≡ supported ms

module _ {S : Type 0} (execute_batch : Bytes → S → Result S StorageError) where
  migrate-UpToDate :
      (fate : ℕ → Fate) (now : ℕ → ℤ) (ms : List Migration) (file : File S)
      → All (λ m. m.version ≤ supported ms) ms
      → (migrate execute_batch fate now ms file).0 ≡ ok tt
      → UpToDate ms (migrate execute_batch fate now ms file).1
  unfolding migrate
  migrate-UpToDate fate now ms file h e =
      elim (Bool-cases (ltb (supported ms) (current_version file))) [
        | inl t ↦ cc (rw t at e)
        | inr t ↦
            let k =
              migrate_all-Recorded execute_batch (supported ms) fate now ms (create_table file) h
                (rw t at e) in
            rw t (record {
              recorded = k.0;
              created = k.1.created refl;
              version = omega (arith, k.1.bound (ground (arith, t)), supported-Recorded ms _ k.0);
            })
      ]

  UpToDate-again :
      (fate : ℕ → Fate) (now : ℕ → ℤ) (ms : List Migration) (g : File S)
      → UpToDate ms g
      → migrate execute_batch fate now ms g ≡ (ok tt, g)
  unfolding migrate
  UpToDate-again fate now ms g u =
      let t : ltb (supported ms) (current_version g) ≡ false = ground (arith, u.version) in
      rw (t, u.created) (migrate_all-again execute_batch fate now ms g u.recorded)

  UpToDate-require_current :
      (ms : List Migration) (g : File S) → UpToDate ms g → require_current ms g ≡ ok tt
  unfolding require_current
  UpToDate-require_current ms g u =
      let t : ltb (supported ms) (current_version g) ≡ false = ground (arith, u.version) in
      let n : ltb (current_version g) (supported ms) ≡ false = ground (arith, u.version) in
      rw (t, n) refl

  -- When no migration has a version above the last one and `migrate` returned `Ok`, then
  -- migrating again returns `Ok` and leaves the file as it is, `require_current` accepts the
  -- file, and `status` reports every migration with a matching checksum.
  pub migrate-migrate :
      (fate fate' : ℕ → Fate) (now now' : ℕ → ℤ) (ms : List Migration) (file : File S)
      → All (λ m. m.version ≤ supported ms) ms
      → (migrate execute_batch fate now ms file).0 ≡ ok tt
      → (migrate execute_batch fate' now' ms (migrate execute_batch fate now ms file).1
          ≡ (ok tt, (migrate execute_batch fate now ms file).1))
        × (require_current ms (migrate execute_batch fate now ms file).1 ≡ ok tt)
        × (found : List MigrationStatus) × (status ms (migrate execute_batch fate now ms file).1
            ≡ ok found)
        × All (λ s. s.checksum_ok ≡ true) found
        × (length found ≡ length ms)
  migrate-migrate fate fate' now now' ms file h e =
      let u = migrate-UpToDate fate now ms file h e in
      let s = statuses-Recorded ms _ u.recorded in
      (
        UpToDate-again fate' now' ms _ u,
        UpToDate-require_current ms _ u,
        statuses ms (rows_of (migrate execute_batch fate now ms file).1),
        status-created ms _ u.created,
        s.0,
        s.1,
      )
