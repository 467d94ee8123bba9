-- ===== src/Sql.antt =====
-- The fragment of SQL in which the statements of src/store/ are written, over tables as lists of
-- rows in insertion order. A `WHERE` clause is a Boolean test on rows.
pub mod Rows
pub mod Order
pub mod Find
use minisqlite.Base.{
  ℕ, zero, suc, ℤ, pos, negsuc, Bool, true, false, Option, none, some, List, [], ◌∷◌, ltb, take,
  if◌then◌else◌,
}

module _ {ℓ} {A : Type ℓ} where
  -- `SELECT * FROM xs WHERE p`.
  unfoldable pub select : (A → Bool) → List A → List A
  select p [] = []
  select p (x ∷ xs) = let rest = select p xs in if p x then x ∷ rest else rest

  -- `query_row(..).optional()` of a `WHERE` clause: the first row.
  unfoldable pub find_row : (A → Bool) → List A → Option A
  find_row p [] = none
  find_row p (x ∷ xs) = let rest = find_row p xs in if p x then some x else rest

  -- `EXISTS (SELECT 1 FROM xs WHERE p)`.
  unfoldable pub exists_row : (A → Bool) → List A → Bool
  exists_row p [] = false
  exists_row p (x ∷ xs) = let rest = exists_row p xs in if p x then true else rest

  unfoldable pub all_rows : (A → Bool) → List A → Bool
  all_rows p [] = true
  all_rows p (x ∷ xs) = let rest = all_rows p xs in if p x then rest else false

  -- `UPDATE xs SET f WHERE p`.
  unfoldable pub update : (A → Bool) → (A → A) → List A → List A
  update p f [] = []
  update p f (x ∷ xs) = (if p x then f x else x) ∷ update p f xs

  -- `DELETE FROM xs WHERE p`.
  unfoldable pub delete : (A → Bool) → List A → List A
  delete p [] = []
  delete p (x ∷ xs) = let rest = delete p xs in if p x then rest else x ∷ rest

  -- `INSERT INTO xs VALUES a ON CONFLICT(key) DO UPDATE SET f`, `p` the rows with the key of `a`.
  unfoldable pub upsert : (A → Bool) → A → (A → A) → List A → List A
  upsert p a f [] = a ∷ []
  upsert p a f (x ∷ xs) = let rest = upsert p a f xs in if p x then f x ∷ xs else x ∷ rest

  -- `COALESCE(MAX(f), 0)`.
  unfoldable pub max_of : (A → ℕ) → List A → ℕ
  max_of f [] = 0
  max_of f (x ∷ xs) = let rest = max_of f xs in if ltb rest (f x) then f x else rest

  -- `ORDER BY`, by insertion: a row goes before the first row that does not precede it.
  unfoldable pub insert_ordered : (A → A → Bool) → A → List A → List A
  insert_ordered le a [] = a ∷ []
  insert_ordered le a (x ∷ xs) =
      let rest = insert_ordered le a xs in if le a x then a ∷ x ∷ xs else x ∷ rest

  unfoldable pub order_by : (A → A → Bool) → List A → List A
  unfolding insert_ordered
  order_by le [] = []
  order_by le (x ∷ xs) = insert_ordered le x (order_by le xs)

  -- `LIMIT n`: a negative limit is no limit.
  unfoldable pub limit_rows : ℤ → List A → List A
  limit_rows (pos n) xs = take n xs
  limit_rows (negsuc n) xs = xs
