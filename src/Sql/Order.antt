-- ===== src/Sql/Order.antt =====
-- What `ORDER BY` and `LIMIT` keep of the rows, and the first row of an order by a number.
use minisqlite.Base.{
  ℕ, zero, suc, ◌≤◌, ◌≡◌, ◌≢◌, refl, subst, Bool, leb, ℤ, pos, negsuc, List, [], ◌∷◌, none, some,
  head?, take, All, All-mono, arith, Bool-cases, inl, inr, some-injective,
}
use minisqlite.Sql.{select, insert_ordered, order_by, limit_rows}
use minisqlite.Sql.Rows.{All-select}

module _ {ℓ κ} {A : Type ℓ} where
  All-take : (P : A → Type κ) (n : ℕ) (xs : List A) → All P xs → All P (take n xs)
  All-take P zero xs h = tt
  All-take P (suc n) [] h = tt
  All-take P (suc n) (x ∷ xs) h = (h.0, All-take P n xs h.1)

  pub head-All : (P : A → Type κ) (xs : List A) (h : A) → All P xs → head? xs ≡ some h → P h
  head-All P [] h p e = cc
  head-All P (x ∷ xs) h p e = subst P (some-injective e) p.0

  pub All-limit : (P : A → Type κ) (n : ℤ) (xs : List A) → All P xs → All P (limit_rows n xs)
  unfolding limit_rows
  All-limit P (pos n) xs h = All-take P n xs h
  All-limit P (negsuc n) xs h = h

  All-insert :
      (P : A → Type κ) (le : A → A → Bool) (a : A) (xs : List A)
      → P a
      → All P xs
      → All P (insert_ordered le a xs)
  unfolding insert_ordered
  All-insert P le a [] p h = (p, tt)
  All-insert P le a (x ∷ xs) p h = elim (Bool-cases (le a x)) [
    | inl e ↦ rw e (p, h)
    | inr e ↦ rw e (h.0, All-insert P le a xs p h.1)
  ]

  pub All-order_by :
      (P : A → Type κ) (le : A → A → Bool) (xs : List A) → All P xs → All P (order_by le xs)
  unfolding order_by
  All-order_by P le [] h = tt
  All-order_by P le (x ∷ xs) h = All-insert P le x _ h.0 (All-order_by P le xs h.1)

  -- Any two rows are related, for a symmetric relation.
  abbrev pub Apart : (A → A → Type κ) → List A → Type (ℓ ⊔ κ)
  Apart R [] = Unit
  Apart R (x ∷ xs) = All (R x) xs × Apart R xs

  pub Apart-select :
      (R : A → A → Type κ) (p : A → Bool) (xs : List A) → Apart R xs → Apart R (select p xs)
  unfolding select
  Apart-select R p [] h = tt
  Apart-select R p (x ∷ xs) h = elim (Bool-cases (p x)) [
    | inl e ↦ rw e (All-select (R x) p xs h.0, Apart-select R p xs h.1)
    | inr e ↦ rw e (Apart-select R p xs h.1)
  ]

  Apart-take : (R : A → A → Type κ) (n : ℕ) (xs : List A) → Apart R xs → Apart R (take n xs)
  Apart-take R zero xs h = tt
  Apart-take R (suc n) [] h = tt
  Apart-take R (suc n) (x ∷ xs) h = (All-take (R x) n xs h.0, Apart-take R n xs h.1)

  pub Apart-limit :
      (R : A → A → Type κ) (n : ℤ) (xs : List A) → Apart R xs → Apart R (limit_rows n xs)
  unfolding limit_rows
  Apart-limit R (pos n) xs h = Apart-take R n xs h
  Apart-limit R (negsuc n) xs h = h

  module _ (R : A → A → Type κ) (symmetric : (a b : A) → R a b → R b a) where
    Apart-insert :
        (le : A → A → Bool) (a : A) (xs : List A)
        → All (R a) xs
        → Apart R xs
        → Apart R (insert_ordered le a xs)
    unfolding insert_ordered
    Apart-insert le a [] p h = (tt, tt)
    Apart-insert le a (x ∷ xs) p h = elim (Bool-cases (le a x)) [
      | inl e ↦ rw e (p, h)
      | inr e ↦
          rw e (All-insert (R x) le a xs (symmetric a x p.0) h.0, Apart-insert le a xs p.1 h.1)
    ]

    pub Apart-order_by : (le : A → A → Bool) (xs : List A) → Apart R xs → Apart R (order_by le xs)
    unfolding order_by
    Apart-order_by le [] h = tt
    Apart-order_by le (x ∷ xs) h =
        Apart-insert le x _ (All-order_by (R x) le xs h.0) (Apart-order_by le xs h.1)

module _ {ℓ} {A : Type ℓ} (f : A → ℕ) where
  abbrev by : A → A → Bool
  by a b = leb (f a) (f b)

  least :
      (a h : A) (ys xs : List A)
      → head? (insert_ordered by a ys) ≡ some h
      → ((y : A) → head? ys ≡ some y → All (λ x. f y ≤ f x) xs)
      → (head? ys ≡ none → xs ≡ [])
      → All (λ x. f h ≤ f x) (a ∷ xs)
  unfolding insert_ordered
  least a h [] xs e k n =
      subst (λ z. All (λ x. f z ≤ f x) (a ∷ xs)) (some-injective e) (rw (n refl) (omega arith, tt))
  least a h (y ∷ ys) xs e k n = elim (Bool-cases (by a y)) [
    | inl t ↦
        let here : a ≡ h = some-injective (rw t at e) in
        subst (λ z. All (λ x. f z ≤ f x) (a ∷ xs)) here
          (
            omega arith,
            All-mono (λ x. f y ≤ f x) (λ x. f a ≤ f x) xs (λ x q. ground (arith, t)) (k y refl),
          )
    | inr t ↦
        let here : y ≡ h = some-injective (rw t at e) in
        subst (λ z. All (λ x. f z ≤ f x) (a ∷ xs)) here (ground (arith, t), k y refl)
  ]

  insert-head : (a : A) (ys : List A) → head? (insert_ordered by a ys) ≢ none
  unfolding insert_ordered
  insert-head a [] e = cc
  insert-head a (y ∷ ys) e = elim (Bool-cases (by a y)) [
    | inl t ↦ cc (rw t at e)
    | inr t ↦ cc (rw t at e)
  ]

  order_by-none : (xs : List A) → head? (order_by by xs) ≡ none → xs ≡ []
  unfolding order_by
  order_by-none [] e = refl
  order_by-none (x ∷ xs) e = absurd (insert-head x (order_by by xs) e)

  -- The first row in the order of a number has the least number.
  pub order_by-least :
      (xs : List A) (h : A) → head? (order_by by xs) ≡ some h → All (λ x. f h ≤ f x) xs
  unfolding order_by
  order_by-least [] h e = tt
  order_by-least (x ∷ xs) h e =
      least x h (order_by by xs) xs e (λ y q. order_by-least xs y q) (order_by-none xs)

module _ {ℓ} {A : Type ℓ} where
  pub head-limit : (xs : List A) → head? (limit_rows (pos 1) xs) ≡ head? xs
  unfolding limit_rows
  head-limit [] = refl
  head-limit (x ∷ xs) = refl
