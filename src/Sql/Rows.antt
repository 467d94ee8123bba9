-- ===== src/Sql/Rows.antt =====
-- Laws of the row operations.
use minisqlite.Base.{
  ℕ, ◌≤◌, ◌≡◌, refl, subst, some-injective, Bool, true, false, ◌||◌, none, some, List, [], ◌∷◌,
  ◌++◌, All, All-mono, arith, is_some, Bool-cases, inl, inr,
}
use minisqlite.Sql.{select, find_row, exists_row, delete, max_of}

none≢some {ℓ} : {A : Type ℓ} {x : A} → none ≡ some x → ⊥
none≢some e = cc

module _ {ℓ} {A : Type ℓ} where
  pub All-select {κ} :
      (P : A → Type κ) (p : A → Bool) (xs : List A) → All P xs → All P (select p xs)
  unfolding select
  All-select P p [] h = tt
  All-select P p (x ∷ xs) h = elim (Bool-cases (p x)) [
    | inl e ↦ rw e (h.0, All-select P p xs h.1)
    | inr e ↦ rw e (All-select P p xs h.1)
  ]

  pub select-All : (p : A → Bool) (xs : List A) → All (λ x. p x ≡ true) (select p xs)
  unfolding select
  select-All p [] = tt
  select-All p (x ∷ xs) = elim (Bool-cases (p x)) [
    | inl e ↦ rw e (e, select-All p xs)
    | inr e ↦ rw e (select-All p xs)
  ]

  pub All-of_select {κ} :
      (Q : A → Type κ) (p : A → Bool) (xs : List A)
      → All Q (select p xs)
      → All (λ x. p x ≡ true → Q x) xs
  unfolding select
  All-of_select Q p [] h = tt
  All-of_select Q p (x ∷ xs) h = elim (Bool-cases (p x)) [
    | inl e ↦
        let h' : Q x × All Q (select p xs) = rw e at h in (λ t. h'.0, All-of_select Q p xs h'.1)
    | inr e ↦ (λ t. cc, All-of_select Q p xs (rw e at h))
  ]

  pub All-delete {κ} :
      (P : A → Type κ) (p : A → Bool) (xs : List A) → All P xs → All P (delete p xs)
  unfolding delete
  All-delete P p [] h = tt
  All-delete P p (x ∷ xs) h = elim (Bool-cases (p x)) [
    | inl e ↦ rw e (All-delete P p xs h.1)
    | inr e ↦ rw e (h.0, All-delete P p xs h.1)
  ]

  -- A found row has every property of the rows, and passes the test.
  pub find_row-All {κ} :
      (P : A → Type κ) (p : A → Bool) (xs : List A) {x : A}
      → All P xs
      → find_row p xs ≡ some x
      → P x
  unfolding find_row
  find_row-All P p [] h e = absurd (none≢some e)
  find_row-All P p (y ∷ xs) {x} h e = elim (Bool-cases (p y)) [
    | inl t ↦ subst P (some-injective (rw t at e)) h.0
    | inr t ↦ find_row-All P p xs h.1 (rw t at e)
  ]

  pub find_row-test : (p : A → Bool) (xs : List A) {x : A} → find_row p xs ≡ some x → p x ≡ true
  unfolding find_row
  find_row-test p [] e = absurd (none≢some e)
  find_row-test p (y ∷ xs) e = elim (Bool-cases (p y)) [
    | inl t ↦ subst (λ z. p z ≡ true) (some-injective (rw t at e)) t
    | inr t ↦ find_row-test p xs (rw t at e)
  ]

  -- Nothing is found exactly when no row passes.
  pub find_row-exists : (p : A → Bool) (xs : List A) → is_some (find_row p xs) ≡ exists_row p xs
  unfolding find_row exists_row
  find_row-exists p [] = refl
  find_row-exists p (x ∷ xs) = ground (arith, find_row-exists p xs)

  pub exists_row-append :
      (p : A → Bool) (xs ys : List A)
      → exists_row p (xs ++ ys) ≡ (exists_row p xs || exists_row p ys)
  unfolding exists_row
  exists_row-append p [] ys = refl
  exists_row-append p (x ∷ xs) ys = ground (arith, exists_row-append p xs ys)

  -- Deleting rows that a test does not see leaves it alone.
  pub exists_row-delete :
      (p d : A → Bool) (xs : List A)
      → ((x : A) → p x ≡ true → d x ≡ false)
      → exists_row p (delete d xs) ≡ exists_row p xs
  unfolding exists_row delete
  exists_row-delete p d [] h = refl
  exists_row-delete p d (x ∷ xs) h = ground (arith, exists_row-delete p d xs h, h x)

  pub exists_row-delete_all :
      (p d : A → Bool) (xs : List A)
      → ((x : A) → p x ≡ true → d x ≡ true)
      → exists_row p (delete d xs) ≡ false
  unfolding exists_row delete
  exists_row-delete_all p d [] h = refl
  exists_row-delete_all p d (x ∷ xs) h = ground (arith, exists_row-delete_all p d xs h, h x)

  pub delete_none : (d : A → Bool) (xs : List A) → ((x : A) → d x ≡ false) → delete d xs ≡ xs
  unfolding delete
  delete_none d [] h = refl
  delete_none d (x ∷ xs) h = ground (arith, delete_none d xs h, h x)

  pub exists_row-All :
      (p : A → Bool) (xs : List A) → exists_row p xs ≡ false → All (λ x. p x ≡ false) xs
  unfolding exists_row
  exists_row-All p [] h = tt
  exists_row-All p (x ∷ xs) h = (ground (arith, h), exists_row-All p xs (ground (arith, h)))

  -- `MAX` bounds every row.
  pub max_of-All : (f : A → ℕ) (xs : List A) → All (λ x. f x ≤ max_of f xs) xs
  unfolding max_of
  max_of-All f [] = tt
  max_of-All f (x ∷ xs) =
      (ground arith, All-mono (λ y. f y ≤ max_of f xs) _ xs (λ y h. ground arith) (max_of-All f xs))
