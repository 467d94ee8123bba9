-- ===== src/Store/Ops/Pages.antt =====
-- The paging loop of the exports of src/store/ops.rs, and its parts, on mapped rows.
use minisqlite.Base.{
  ℕ, zero, suc, ◌≡◌, refl, ap, ◌∙◌, Bytes, List, [], ◌∷◌, ◌++◌, map, take, length, concat, Bool,
  Option, none, some, arith, Bool-cases, inl, inr,
}
use mathlib.Core.Option
use minisqlite.Sql.{select, order_by, insert_ordered, limit_rows}
use minisqlite.Store.Ops.Paging.{export_pages, export_table, last_row, after_sequence, by_key}

module _ {A : Type 0} {B : Type 0} (f : A → B) where
  pub select-map :
      (p : B → Bool) (xs : List A) → select p (map f xs) ≡ map f (select (λ x. p (f x)) xs)
  unfolding select
  select-map p [] = refl
  select-map p (x ∷ xs) = elim (Bool-cases (p (f x))) [
    | inl e ↦ rw e (ap (λ r. f x ∷ r) (select-map p xs))
    | inr e ↦ rw e (select-map p xs)
  ]

  insert_ordered-map :
      (le : B → B → Bool) (a : A) (xs : List A)
      → insert_ordered le (f a) (map f xs) ≡ map f (insert_ordered (λ x y. le (f x) (f y)) a xs)
  unfolding insert_ordered
  insert_ordered-map le a [] = refl
  insert_ordered-map le a (x ∷ xs) = elim (Bool-cases (le (f a) (f x))) [
    | inl e ↦ rw e refl
    | inr e ↦ rw e (ap (λ r. f x ∷ r) (insert_ordered-map le a xs))
  ]

  pub order_by-map :
      (le : B → B → Bool) (xs : List A)
      → order_by le (map f xs) ≡ map f (order_by (λ x y. le (f x) (f y)) xs)
  unfolding order_by
  order_by-map le [] = refl
  order_by-map le (x ∷ xs) =
      ap (insert_ordered le (f x)) (order_by-map le xs)
      ∙ insert_ordered-map le x (order_by (λ x y. le (f x) (f y)) xs)

  take-map : (n : ℕ) (xs : List A) → take n (map f xs) ≡ map f (take n xs)
  take-map zero xs = refl
  take-map (suc n) [] = refl
  take-map (suc n) (x ∷ xs) = ap (λ r. f x ∷ r) (take-map n xs)

  pub length-map : (xs : List A) → length (map f xs) ≡ length xs
  length-map [] = refl
  length-map (x ∷ xs) = omega (arith, length-map xs)

  last_row-map :
      (o : Option A) (xs : List A)
      → last_row (Option.map f o) (map f xs) ≡ Option.map f (last_row o xs)
  unfolding last_row
  last_row-map o [] = refl
  last_row-map o (x ∷ xs) = last_row-map (some x) xs

  pub map-concat :
      (write : B → Bytes) (xs : List A)
      → concat (map write (map f xs)) ≡ concat (map (λ x. write (f x)) xs)
  unfolding concat
  map-concat write [] = refl
  map-concat write (x ∷ xs) = ap (λ r. write (f x) ++ r) (map-concat write xs)

  -- Pages of mapped rows are pages of the rows.
  export_pages-map :
      (fuel : ℕ) (after : Option B → B → Bool) (le : B → B → Bool) (write : B → Bytes) (xs : List A)
      (o : Option A)
      → export_pages fuel after le write (map f xs) (Option.map f o)
        ≡ export_pages fuel
            (λ o x. after (Option.map f o) (f x))
            (λ x y. le (f x) (f y))
            (λ x. write (f x))
            xs
            o
  unfolding export_pages limit_rows
  export_pages-map zero after le write xs o = refl
  export_pages-map (suc fuel) after le write xs o =
      let page =
        take 512
          (order_by (λ x y. le (f x) (f y)) (select (λ x. after (Option.map f o) (f x)) xs)) in
      let same : take 512 (order_by le (select (after (Option.map f o)) (map f xs))) ≡ map f page =
        ap (λ r. take 512 (order_by le r)) (select-map (after (Option.map f o)) xs)
        ∙ ap (take 512) (order_by-map le (select (λ x. after (Option.map f o) (f x)) xs))
        ∙ take-map 512
            (order_by (λ x y. le (f x) (f y)) (select (λ x. after (Option.map f o) (f x)) xs)) in
      rw
        (
          same,
          length-map page,
          map-concat write page,
          last_row-map o page,
          export_pages-map fuel after le write xs (last_row o page),
        )
        refl

-- Functions that agree on every row give the same pages.
export_pages_ext :
    {A : Type 0} (fuel : ℕ) (after after' : Option A → A → Bool) (le le' : A → A → Bool)
    (write write' : A → Bytes) (xs : List A) (o : Option A)
    → ((o : Option A) (x : A) → after o x ≡ after' o x)
    → ((x y : A) → le x y ≡ le' x y)
    → ((x : A) → write x ≡ write' x)
    → export_pages fuel after le write xs o ≡ export_pages fuel after' le' write' xs o
export_pages_ext fuel after after' le le' write write' xs o p q k =
    λ i. export_pages fuel (λ o x. p o x i) (λ x y. q x y i) (λ x. k x i) xs o

after_sequence-map :
    {A : Type 0} (f : A → A) (key : A → ℕ)
    → ((x : A) → key (f x) ≡ key x)
    → (o : Option A) (x : A) → after_sequence key (Option.map f o) (f x) ≡ after_sequence key o x
after_sequence-map f key h none x = rw (h x) refl
after_sequence-map f key h (some l) x = rw (h x, h l) refl

-- A table of mapped rows is exported as the table is, when neither the order nor the text of a
-- row changes.
pub export_table-map :
    {A : Type 0} (f : A → A) (key : A → ℕ) (write : A → Bytes) (xs : List A)
    → ((x : A) → key (f x) ≡ key x)
    → ((x : A) → write (f x) ≡ write x)
    → export_table (after_sequence key) (by_key key) write (map f xs)
      ≡ export_table (after_sequence key) (by_key key) write xs
unfolding export_table
export_table-map f key write xs h k =
    ap (λ n. export_pages (suc n) (after_sequence key) (by_key key) write (map f xs) none)
      (length-map f xs)
    ∙ export_pages-map f (suc (length xs)) (after_sequence key) (by_key key) write xs none
    ∙ export_pages_ext (suc (length xs)) _ _ _ _ _ _ xs none (after_sequence-map f key h)
        (λ x y. rw (h x, h y) refl) k
