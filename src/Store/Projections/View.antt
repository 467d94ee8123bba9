-- ===== src/Store/Projections/View.antt =====
-- Projections as a map from projections and keys to values: what a patch of src/store/projections.rs
-- means to a reader.
use minisqlite.Base.{
  ◌≡◌, refl, sym, ap, subst, ◌∙◌, Bytes, bytes_eq, bytes_eq_iff, bytes_eq_refl, List, [], ◌∷◌,
  Option, none, some, Bool, true, false, ◌&&◌, arith, Bool-cases, inl, inr, if◌then◌else◌, Ensures,
  Ensures-bind, Ensures-ok, Ensures-guard, Ensures-reject_if,
}
use mathlib.Core.Option
use minisqlite.Sql
use minisqlite.Sql.{find_row, exists_row, upsert}
use minisqlite.Sql.Find.{
  find_row-upsert_other, find_row-delete_other, find_row-delete_all, find_row-none,
  find_row-append_found, find_row-append_other,
}
use minisqlite.Projection.{ProjectionEntry, ProjectionMutation, put, delete, clear, replace}
use minisqlite.Store.Schema.{Db, EntryRow}
use minisqlite.Store.Projections.{
  is_meta, is_entry, in_projection, put_entry, delete_entry, clear_entries, insert_entry,
  insert_entries, projection_get,
}

-- A view: the value of each key of each projection.
abbrev pub View : Type 0
View = Bytes → Bytes → Option Bytes

abbrev pub assign : Bytes → Bytes → Option Bytes → View → View
assign p k o view q j = if bytes_eq p q && bytes_eq k j then o else view q j

abbrev pub overwrite : Bytes → (Bytes → Option Bytes) → View → View
overwrite p table view q j = if bytes_eq p q then table j else view q j

unfoldable pub lookup : List ProjectionEntry → Bytes → Option Bytes
lookup [] j = none
lookup (e ∷ es) j = let rest = lookup es j in if bytes_eq e.key j then some e.value else rest

unfoldable pub mutate_view : Bytes → ProjectionMutation → View → View
mutate_view p (put k v) view = assign p k (some v) view
mutate_view p (delete k) view = assign p k none view
mutate_view p clear view = overwrite p (λ j. none) view
mutate_view p (replace es) view = overwrite p (lookup es) view

unfoldable pub mutate_views : Bytes → List ProjectionMutation → View → View
mutate_views p [] view = view
mutate_views p (m ∷ ms) view = mutate_views p ms (mutate_view p m view)

-- The tables show a view.
unfoldable pub Shows : View → Db → Type 0
Shows view db = (q j : Bytes) → projection_get db q j ≡ view q j

-- A row has one projection and one key.
entry_key :
    (p k q j : Bytes) (e : EntryRow)
    → is_entry p k e ≡ true
    → (bytes_eq p q && bytes_eq k j) ≡ false
    → is_entry q j e ≡ false
entry_key p k q j e t s =
    let ep : e.projection ≡ p = (bytes_eq_iff e.projection p).0 (ground (arith, t)) in
    let ek : e.key ≡ k = (bytes_eq_iff e.key k).0 (ground (arith, t)) in
    subst (λ x. (bytes_eq x q && bytes_eq e.key j) ≡ false) (sym ep)
      (subst (λ x. (bytes_eq p q && bytes_eq x j) ≡ false) (sym ek) s)

other_projection :
    (p q j : Bytes) (e : EntryRow)
    → in_projection p e ≡ true
    → bytes_eq p q ≡ false
    → is_entry q j e ≡ false
other_projection p q j e t s =
    let ep : e.projection ≡ p = (bytes_eq_iff e.projection p).0 t in
    subst (λ x. (bytes_eq x q && bytes_eq e.key j) ≡ false) (sym ep) (rw s refl)

same_key :
    (p k q j : Bytes)
    → (bytes_eq p q && bytes_eq k j) ≡ true
    → (P : Bytes → Bytes → Type 0) → P p k
    → P q j
same_key p k q j t P h =
    subst (λ x. P x j) ((bytes_eq_iff p q).0 (ground (arith, t)))
      (subst (P p) ((bytes_eq_iff k j).0 (ground (arith, t))) h)

found_upserted :
    (p k v : Bytes) (xs : List EntryRow)
    → Option.map
        (λ (e : EntryRow). e.value)
        (find_row (is_entry p k) (
          upsert
            (is_entry p k)
            (record { projection = p; key = k; value = v })
            (λ e. record e { value = v })
            xs))
      ≡ some v
unfolding find_row upsert
found_upserted p k v [] = rw (bytes_eq_refl p, bytes_eq_refl k) refl
found_upserted p k v (x ∷ xs) = elim (Bool-cases (is_entry p k x)) [
  | inl e ↦ rw (e, e) refl
  | inr e ↦ rw (e, e) (found_upserted p k v xs)
]

module _ (view : View) (db : Db) (h : Shows view db) (p : Bytes) where
  pub put_entry-Shows :
      (k v : Bytes) → Ensures (Shows (assign p k (some v) view)) (put_entry db p k v)
  unfolding put_entry Shows projection_get
  put_entry-Shows k v = Ensures-guard (exists_row (is_meta p) db.projection_meta) _ _ (λ _.
      Ensures-ok _ _ refl (λ q j. elim (Bool-cases (bytes_eq p q && bytes_eq k j)) [
        | inl t ↦ rw t (
            same_key p k q j t
              (λ q j.
                Option.map (λ (e : EntryRow). e.value)
                  (find_row (is_entry q j) (
                    upsert (is_entry p k) (record { projection = p; key = k; value = v })
                      (λ e. record e { value = v }) db.projection_entries))
                ≡ some v)
              (found_upserted p k v db.projection_entries))
        | inr t ↦ rw t (
            ap (Option.map (λ (e : EntryRow). e.value)) (
              find_row-upsert_other (is_entry q j) (is_entry p k) _ _ db.projection_entries t
                (λ x s. (entry_key p k q j x s t, entry_key p k q j x s t)))
            ∙ h q j)
      ]))

  pub delete_entry-Shows : (k : Bytes) → Shows (assign p k none view) (delete_entry db p k)
  unfolding delete_entry Shows projection_get
  delete_entry-Shows k q j = elim (Bool-cases (bytes_eq p q && bytes_eq k j)) [
    | inl t ↦ rw t (
        same_key p k q j t
          (λ q j.
            Option.map (λ (e : EntryRow). e.value)
              (find_row (is_entry q j) (Sql.delete (is_entry p k) db.projection_entries))
            ≡ none)
          (ap (Option.map (λ (e : EntryRow). e.value))
            (find_row-delete_all (is_entry p k) (is_entry p k) db.projection_entries (λ x e. e))))
    | inr t ↦ rw t (
        ap (Option.map (λ (e : EntryRow). e.value)) (
          find_row-delete_other (is_entry q j) (is_entry p k) db.projection_entries
            (λ x s. entry_key p k q j x s t))
        ∙ h q j)
  ]

  pub clear_entries-Shows : Shows (overwrite p (λ j. none) view) (clear_entries db p)
  unfolding clear_entries Shows projection_get
  clear_entries-Shows q j = elim (Bool-cases (bytes_eq p q)) [
    | inl t ↦ rw t (
        ap (Option.map (λ (e : EntryRow). e.value)) (
          find_row-delete_all (is_entry q j) (in_projection p) db.projection_entries
            (λ x e. ground (arith, e, (bytes_eq_iff p q).0 t))))
    | inr t ↦ rw t (
        ap (Option.map (λ (e : EntryRow). e.value)) (
          find_row-delete_other (is_entry q j) (in_projection p) db.projection_entries
            (λ x s. other_projection p q j x s t))
        ∙ h q j)
  ]

  -- An entry that is inserted was not there.
  insert_entry-Shows :
      (e : ProjectionEntry)
      → Ensures
          (λ d. Shows (assign p e.key (some e.value) view) d × (view p e.key ≡ none))
          (insert_entry db p e)
  unfolding insert_entry Shows projection_get
  insert_entry-Shows e =
      Ensures-reject_if (exists_row (is_entry p e.key) db.projection_entries) _ _ (λ fresh.
        Ensures-guard (exists_row (is_meta p) db.projection_meta) _ _ (λ _. Ensures-ok _ _ refl (
          λ q j. elim (Bool-cases (bytes_eq p q && bytes_eq e.key j)) [
            | inl t ↦ rw t (
                ap (Option.map (λ (e : EntryRow). e.value)) (
                  find_row-append_found (is_entry q j) db.projection_entries _ t (
                    same_key p e.key q j t
                      (λ q j. exists_row (is_entry q j) db.projection_entries ≡ false) fresh)))
            | inr t ↦ rw t (
                ap (Option.map (λ (e : EntryRow). e.value))
                  (find_row-append_other (is_entry q j) db.projection_entries _ t)
                ∙ h q j)
          ],
          sym (h p e.key)
              ∙ ap (Option.map (λ (e : EntryRow). e.value))
                  (find_row-none (is_entry p e.key) db.projection_entries fresh),
        )))

-- Entries that are inserted one by one: what was there comes before them.
abbrev pub or_else : Option Bytes → Option Bytes → Option Bytes
or_else none o = o
or_else (some v) o = some v

abbrev pub fill : Bytes → List ProjectionEntry → View → View
fill p es view q j = if bytes_eq p q then or_else (view q j) (lookup es j) else view q j

emptied : (b : Bool) (o : Option Bytes) → o ≡ (if b then or_else o none else o)
emptied true none = refl
emptied true (some v) = refl
emptied false o = refl

fill-cons :
    (p k v : Bytes) (es : List ProjectionEntry) (view : View) (q j : Bytes)
    → view p k ≡ none
    → fill p es (assign p k (some v) view) q j
      ≡ fill p (record { key = k; value = v } ∷ es) view q j
unfolding lookup
fill-cons p k v es view q j h = elim (Bool-cases (bytes_eq p q && bytes_eq k j)) [
  | inl t ↦
      let f : view q j ≡ none = same_key p k q j t (λ q j. view q j ≡ none) h in
      ground (arith, t, f)
  | inr t ↦ ground (arith, t)
]

pub insert_entries-Shows :
    (es : List ProjectionEntry) (view : View) (db : Db) (p : Bytes)
    → Shows view db
    → Ensures (Shows (fill p es view)) (insert_entries db p es)
unfolding insert_entries Shows lookup
insert_entries-Shows [] view db p h =
    Ensures-ok _ _ refl (λ q j. h q j ∙ emptied (bytes_eq p q) (view q j))
insert_entries-Shows (e ∷ es) view db p h = Ensures-bind (insert_entry db p e) _ (λ d s.
    let k = (insert_entry-Shows view db h p e).at d s in
    record {
      at = λ d' s' q j.
          (insert_entries-Shows es (assign p e.key (some e.value) view) d p k.0).at d' s' q j
          ∙ fill-cons p e.key e.value es view q j k.1;
    })
