-- ===== src/Store/Migrations/Recorded.antt =====
-- The rows of `schema_migrations` in src/store/migrations.rs and what is reported of them.
use minisqlite.Base.{
  ℕ, ◌≤◌, ℤ, bytes_eq, bytes_eq_refl, ◌≡◌, refl, sym, ==_refl, Bool, true, false, List, [], ◌∷◌,
  ◌++◌, some, ap, Bool-cases, inl, inr, ok, All, arith, length,
}
use minisqlite.Sql.{find_row, exists_row, max_of}
use minisqlite.Sql.Find.{find_row-append_found}
use minisqlite.Store.Checksum.{checksum}
use minisqlite.Store.Migrations.{
  Migration, MigrationRow, MigrationStatus, File, rows_of, create_table, current_version,
  has_version, applied, record_of, status, statuses,
}

find_row-append_kept :
    {A : Type 0} (p : A → Bool) (xs ys : List A) (a : A)
    → find_row p xs ≡ some a
    → find_row p (xs ++ ys) ≡ some a
unfolding find_row
find_row-append_kept p [] ys a e = cc
find_row-append_kept p (x ∷ xs) ys a e = elim (Bool-cases (p x)) [
  | inl t ↦ rw t (rw t at e)
  | inr t ↦ rw t (find_row-append_kept p xs ys a (rw t at e))
]

max_of-append_bound :
    {A : Type 0} (f : A → ℕ) (xs : List A) (a : A) (b : ℕ)
    → max_of f xs ≤ b
    → f a ≤ b
    → max_of f (xs ++ a ∷ []) ≤ b
unfolding max_of
max_of-append_bound f [] a b h k = ground (arith, k)
max_of-append_bound f (x ∷ xs) a b h k =
    ground (arith, max_of-append_bound f xs a b (ground (arith, h)) k, h)

module _ {S : Type 0} where
  -- A migration's row is in the file, with the checksum of its text.
  pub record Recorded (file : File S) (m : Migration) : Type 0 where
    pub row : MigrationRow
    pub found : find_row (has_version m.version) (rows_of file) ≡ some row
    pub matches : bytes_eq row.checksum (checksum m.sql) ≡ true

  -- What a round keeps.
  pub record Kept (b : ℕ) (g g' : File S) : Type 0 where
    pub recorded : (m : Migration) → Recorded g m → Recorded g' m
    pub created : create_table g ≡ g → create_table g' ≡ g'
    pub bound : current_version g ≤ b → current_version g' ≤ b

  pub Kept-refl : (b : ℕ) (g : File S) → Kept b g g
  Kept-refl b g = record { recorded = λ m r. r; created = λ e. e; bound = λ h. h }

  pub Kept-trans : (b : ℕ) (f g h : File S) → Kept b f g → Kept b g h → Kept b f h
  Kept-trans b f g h k l = record {
    recorded = λ m r. l.recorded m (k.recorded m r);
    created = λ e. l.created (k.created e);
    bound = λ e. l.bound (k.bound e);
  }

  pub Kept-applied :
      (b : ℕ) (g : File S) (m : Migration) (now : ℤ) (s : S)
      → m.version ≤ b
      → Kept b g (applied g m now s)
  unfolding applied create_table rows_of current_version record_of
  Kept-applied b g m now s h = record {
    recorded = λ m' r. record {
      row = r.row;
      found = find_row-append_kept (has_version m'.version) _ _ r.row r.found;
      matches = r.matches;
    };
    created = λ e. refl;
    bound = λ e. max_of-append_bound (λ r. r.version) _ _ b e h;
  }

  pub Recorded-applied :
      (g : File S) (m : Migration) (now : ℤ) (s : S)
      → exists_row (has_version m.version) (rows_of g) ≡ false
      → Recorded (applied g m now s) m
  unfolding applied rows_of record_of
  Recorded-applied g m now s n = record {
    row = record_of m now;
    found = find_row-append_found (has_version m.version) _ (record_of m now) (==_refl m.version) n;
    matches = bytes_eq_refl (checksum m.sql);
  }

  pub statuses-Recorded :
      (ms : List Migration) (file : File S)
      → All (Recorded file) ms
      → All (λ (s : MigrationStatus). s.checksum_ok ≡ true) (statuses ms (rows_of file))
        × (length (statuses ms (rows_of file)) ≡ length ms)
  unfolding statuses
  statuses-Recorded [] file h = (tt, refl)
  statuses-Recorded (m ∷ ms) file h =
      let k = statuses-Recorded ms file h.1 in rw h.0.found ((h.0.matches, k.0), omega (arith, k.1))

  pub status-created :
      (ms : List Migration) (file : File S)
      → create_table file ≡ file
      → status ms file ≡ ok (statuses ms (rows_of file))
  unfolding status statuses create_table
  status-created [] file e = refl
  status-created (m ∷ ms) file e = rw (sym (ap (λ (f : File S). f.schema_migrations) e)) refl
