-- ===== src/Store/Projections/Scan.antt =====
-- Prefix scans of src/store/projections.rs.
use minisqlite.Base.{
  ℕ, ◌+◌, ◌<◌, ◌≡◌, refl, ap, ◌∙◌, Bytes, bytes_lt, bytes_le, List, [], ◌∷◌, ◌++◌, reverse, Option,
  none, some, Bool, true, false, ◌&&◌, ◌==◌, if◌then◌else◌, All, All-mono, map, as_i64, arith,
  Bool-cases, inl, inr,
}
use mathlib.Core.Option
use mathlib.Core.List.{reverse-cons, reverse-append}
use minisqlite.Sql.{select, order_by, limit_rows}
use minisqlite.Store.Schema.{Db, EntryRow}
use minisqlite.Store.Projections.{
  before_end, in_projection, in_scan, entry_of, scan, projection_scan_prefix_page,
  projection_scan_prefix,
}
use minisqlite.Store.Projections.Prefix.{bump_last, prefix_upper_bound}

abbrev IsByte : ℕ → Type 0
IsByte b = b < 256

unfoldable pub starts_with : Bytes → Bytes → Bool
starts_with [] key = true
starts_with (b ∷ bs) [] = false
starts_with (b ∷ bs) (c ∷ cs) = c == b && starts_with bs cs

abbrev append_to : ℕ → Option Bytes → Option Bytes
append_to b none = if b == 0xff then none else some ((b + 1) ∷ [])
append_to b (some ys) = some (ys ++ b ∷ [])

bump_last-append : (xs : Bytes) (b : ℕ) → bump_last (xs ++ b ∷ []) ≡ append_to b (bump_last xs)
unfolding bump_last
bump_last-append [] b = refl
bump_last-append (x ∷ xs) b = elim (Bool-cases (x == 0xff)) [
  | inl e ↦ rw e (bump_last-append xs b)
  | inr e ↦ rw e refl
]

abbrev extend : ℕ → Option Bytes → Option Bytes
extend b none = if b == 0xff then none else some ((b + 1) ∷ [])
extend b (some u) = some (b ∷ u)

reverse-append_to :
    (b : ℕ) (o : Option Bytes)
    → Option.map reverse (append_to b o) ≡ extend b (Option.map reverse o)
reverse-append_to b (some ys) = ap some (reverse-append ys (b ∷ []))
reverse-append_to b none = elim (Bool-cases (b == 0xff)) [ inl e ↦ rw e refl | inr e ↦ rw e refl ]

-- The bound of a prefix, from its first byte on.
prefix_upper_bound-cons :
    (b : ℕ) (bs : Bytes) → prefix_upper_bound (b ∷ bs) ≡ extend b (prefix_upper_bound bs)
unfolding prefix_upper_bound
prefix_upper_bound-cons b bs =
    ap (λ r. Option.map reverse (bump_last r)) (reverse-cons b bs)
    ∙ ap (Option.map reverse) (bump_last-append (reverse bs) b)
    ∙ reverse-append_to b (bump_last (reverse bs))

step :
    (b c : ℕ) (bs cs : Bytes) (o : Option Bytes)
    → b < 256
    → c < 256
    → (bytes_le (b ∷ bs) (c ∷ cs) && before_end (extend b o) (c ∷ cs))
      ≡ (c == b && (bytes_le bs cs && before_end o cs))
unfolding bytes_lt
step b c bs cs none hb hc = ground arith
step b c bs cs (some u) hb hc = ground arith

-- The keys between a prefix and its upper bound are those that start with the prefix.
pub starts_with-prefix_upper_bound :
    (prefix key : Bytes)
    → All IsByte prefix
    → All IsByte key
    → (bytes_le prefix key && before_end (prefix_upper_bound prefix) key) ≡ starts_with prefix key
unfolding starts_with bytes_lt prefix_upper_bound
starts_with-prefix_upper_bound [] [] hp hk = refl
starts_with-prefix_upper_bound [] (c ∷ cs) hp hk = refl
starts_with-prefix_upper_bound (b ∷ bs) [] hp hk = refl
starts_with-prefix_upper_bound (b ∷ bs) (c ∷ cs) hp hk =
    ap (λ o. bytes_le (b ∷ bs) (c ∷ cs) && before_end o (c ∷ cs)) (prefix_upper_bound-cons b bs)
    ∙ step b c bs cs (prefix_upper_bound bs) hp.0 hk.0
    ∙ ap (λ t. c == b && t) (starts_with-prefix_upper_bound bs cs hp.1 hk.1)

select_ext :
    (p q : EntryRow → Bool) (xs : List EntryRow)
    → All (λ e. p e ≡ q e) xs
    → select p xs ≡ select q xs
unfolding select
select_ext p q [] h = refl
select_ext p q (x ∷ xs) h = rw (h.0, select_ext p q xs h.1) refl

-- For a prefix and keys that are byte strings, a prefix scan returns, in the order of the keys
-- and up to the limit, the entries of the projection whose keys start with the prefix.
pub projection_scan_prefix-starts_with :
    (db : Db) (projection prefix : Bytes) (limit : ℕ)
    → All IsByte prefix
    → All (λ e. All IsByte e.key) db.projection_entries
    → projection_scan_prefix db projection prefix limit
      ≡ map entry_of (
          limit_rows (as_i64 limit) (
            order_by
              (λ a b. bytes_le a.key b.key)
              (select
                (λ e. in_projection projection e && starts_with prefix e.key)
                db.projection_entries)))
unfolding projection_scan_prefix projection_scan_prefix_page scan in_scan
projection_scan_prefix-starts_with db projection prefix limit hp hk =
    ap
      (λ rows.
        map entry_of (limit_rows (as_i64 limit) (order_by (λ a b. bytes_le a.key b.key) rows)))
      (select_ext _ _ db.projection_entries (
        All-mono _ _ db.projection_entries
          (λ e k.
            ap (λ t. in_projection projection e && t)
              (ap (λ t. bytes_le prefix e.key && t) (ground arith)
                ∙ starts_with-prefix_upper_bound prefix e.key hp k))
          hk))
