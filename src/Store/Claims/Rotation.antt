-- ===== src/Store/Claims/Rotation.antt =====
-- The partitions that a claim of src/store/jobs.rs goes through, from its cursor on.
use minisqlite.Base.{
  ℕ, zero, suc, ◌+◌, ◌≡◌, refl, ◌∙◌, Bytes, bytes_eq, bytes_le, List, [], ◌∷◌, map, take, length,
  length-append, Bool, true, false, ◌||◌, Option, arith, Bool-cases, inl, inr, if◌then◌else◌,
}
use minisqlite.Sql.{select, exists_row, order_by, insert_ordered}
use minisqlite.Sql.Rows.{exists_row-append}
use minisqlite.Store.Schema.{Db, PartitionRow}
use minisqlite.Store.Jobs.Table.{is_partition}
use minisqlite.Store.Claims.Plan.{drop, start_of, rotation, cursor_of, partitions_of}

swap :
    (a b c : Bool)
    → (if a then true else (if b then true else c)) ≡ (if b then true else (if a then true else c))
swap true true c = refl
swap true false c = refl
swap false true c = refl
swap false false c = refl

or_true : (b : Bool) → (b || true) ≡ true
or_true true = refl
or_true false = refl

or_false : (b : Bool) → (b || false) ≡ b
or_false true = refl
or_false false = refl

module _ {A : Type 0} (q : A → Bool) where
  exists_row-insert :
      (le : A → A → Bool) (a : A) (xs : List A)
      → exists_row q (insert_ordered le a xs) ≡ exists_row q (a ∷ xs)
  unfolding exists_row insert_ordered
  exists_row-insert le a [] = refl
  exists_row-insert le a (x ∷ xs) = elim (Bool-cases (le a x)) [
    | inl e ↦ rw e refl
    | inr e ↦ rw (e, exists_row-insert le a xs) (swap (q x) (q a) (exists_row q xs))
  ]

  exists_row-order_by :
      (le : A → A → Bool) (xs : List A) → exists_row q (order_by le xs) ≡ exists_row q xs
  unfolding exists_row order_by
  exists_row-order_by le [] = refl
  exists_row-order_by le (x ∷ xs) =
      exists_row-insert le x (order_by le xs) ∙ rw (exists_row-order_by le xs) refl

exists_row-partitions :
    (queue p : Bytes) (xs : List PartitionRow)
    → exists_row
        (λ x. bytes_eq x p)
        (map (λ (a : PartitionRow). a.partition_key) (select (λ a. bytes_eq a.queue queue) xs))
      ≡ exists_row (is_partition queue p) xs
unfolding exists_row select
exists_row-partitions queue p [] = refl
exists_row-partitions queue p (x ∷ xs) = elim (Bool-cases (bytes_eq x.queue queue)) [
  | inl e ↦ rw (e, exists_row-partitions queue p xs) refl
  | inr e ↦ rw (e, exists_row-partitions queue p xs) refl
]

exists_row-halves :
    (q : Bytes → Bool) (n : ℕ) (xs : List Bytes)
    → (exists_row q (drop n xs) || exists_row q (take n xs)) ≡ exists_row q xs
unfolding exists_row drop
exists_row-halves q zero xs = or_false (exists_row q xs)
exists_row-halves q (suc n) [] = refl
exists_row-halves q (suc n) (x ∷ xs) = elim (Bool-cases (q x)) [
  | inl e ↦ rw e (or_true (exists_row q (drop n xs)))
  | inr e ↦ rw e (exists_row-halves q n xs)
]

length-halves : (n : ℕ) (xs : List Bytes) → length (drop n xs) + length (take n xs) ≡ length xs
unfolding drop
length-halves zero xs = omega arith
length-halves (suc n) [] = omega arith
length-halves (suc n) (x ∷ xs) = omega (arith, length-halves n xs)

-- The partitions that a claim goes through are those that are listed.
pub rotation-listed :
    (db : Db) (queue p : Bytes)
    → exists_row (λ x. bytes_eq x p) (rotation (cursor_of db queue) (partitions_of db queue))
      ≡ exists_row (is_partition queue p) db.active_partitions
unfolding rotation partitions_of
rotation-listed db queue p =
    exists_row-append (λ x. bytes_eq x p) _ _
    ∙ exists_row-halves (λ x. bytes_eq x p) (start_of (cursor_of db queue) (partitions_of db queue))
        (partitions_of db queue)
    ∙ exists_row-order_by (λ x. bytes_eq x p) bytes_le _
    ∙ exists_row-partitions queue p db.active_partitions

pub length-rotation : (o : Option Bytes) (ps : List Bytes) → length (rotation o ps) ≡ length ps
unfolding rotation
length-rotation o ps =
    length-append (drop (start_of o ps) ps) (take (start_of o ps) ps)
    ∙ length-halves (start_of o ps) ps
