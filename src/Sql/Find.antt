-- ===== src/Sql/Find.antt =====
-- What `find_row` finds in a table after a statement of src/store/ wrote it.
use minisqlite.Base.{
  ◌≡◌, refl, sym, ◌∙◌, Bool, true, false, none, some, List, [], ◌∷◌, ◌++◌, Bool-cases, inl, inr,
}
use minisqlite.Sql.{find_row, exists_row, delete, upsert}

kept : (r d : Bool) → (r ≡ true → d ≡ true) → d ≡ false → r ≡ false
kept true d h e = sym (h refl) ∙ e
kept false d h e = refl

module _ {ℓ} {A : Type ℓ} where
  -- A statement on rows of which none is looked for.
  pub find_row-upsert_other :
      (r p : A → Bool) (a : A) (f : A → A) (xs : List A)
      → r a ≡ false
      → ((x : A) → p x ≡ true → (r x ≡ false) × (r (f x) ≡ false))
      → find_row r (upsert p a f xs) ≡ find_row r xs
  unfolding find_row upsert
  find_row-upsert_other r p a f [] h k = rw h refl
  find_row-upsert_other r p a f (x ∷ xs) h k = elim (Bool-cases (p x)) [
    | inl e ↦ rw (e, (k x e).0, (k x e).1) refl
    | inr e ↦ rw (e, find_row-upsert_other r p a f xs h k) refl
  ]

  pub find_row-delete_other :
      (r d : A → Bool) (xs : List A)
      → ((x : A) → d x ≡ true → r x ≡ false)
      → find_row r (delete d xs) ≡ find_row r xs
  unfolding find_row delete
  find_row-delete_other r d [] h = refl
  find_row-delete_other r d (x ∷ xs) h = elim (Bool-cases (d x)) [
    | inl e ↦ rw (e, h x e) (find_row-delete_other r d xs h)
    | inr e ↦ rw (e, find_row-delete_other r d xs h) refl
  ]

  -- Every row that is looked for is deleted.
  pub find_row-delete_all :
      (r d : A → Bool) (xs : List A)
      → ((x : A) → r x ≡ true → d x ≡ true)
      → find_row r (delete d xs) ≡ none
  unfolding find_row delete
  find_row-delete_all r d [] h = refl
  find_row-delete_all r d (x ∷ xs) h = elim (Bool-cases (d x)) [
    | inl e ↦ rw e (find_row-delete_all r d xs h)
    | inr e ↦ rw (e, kept (r x) (d x) (h x) e) (find_row-delete_all r d xs h)
  ]

  pub find_row-none : (p : A → Bool) (xs : List A) → exists_row p xs ≡ false → find_row p xs ≡ none
  unfolding find_row exists_row
  find_row-none p [] h = refl
  find_row-none p (x ∷ xs) h = elim (Bool-cases (p x)) [
    | inl e ↦ cc (rw e at h)
    | inr e ↦ rw e (find_row-none p xs (rw e at h))
  ]

  pub find_row-append_found :
      (r : A → Bool) (xs : List A) (a : A)
      → r a ≡ true
      → exists_row r xs ≡ false
      → find_row r (xs ++ a ∷ []) ≡ some a
  unfolding find_row exists_row
  find_row-append_found r [] a t h = rw t refl
  find_row-append_found r (x ∷ xs) a t h = elim (Bool-cases (r x)) [
    | inl e ↦ cc (rw e at h)
    | inr e ↦ rw e (find_row-append_found r xs a t (rw e at h))
  ]

  pub find_row-append_other :
      (r : A → Bool) (xs : List A) (a : A) → r a ≡ false → find_row r (xs ++ a ∷ []) ≡ find_row r xs
  unfolding find_row
  find_row-append_other r [] a t = rw t refl
  find_row-append_other r (x ∷ xs) a t = elim (Bool-cases (r x)) [
    | inl e ↦ rw e refl
    | inr e ↦ rw e (find_row-append_other r xs a t)
  ]
