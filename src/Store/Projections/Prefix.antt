-- ===== src/Store/Projections/Prefix.antt =====
-- `prefix_upper_bound` of src/store/projections.rs.
use minisqlite.Base.{◌+◌, Bytes, [], ◌∷◌, reverse, Option, none, some, ◌==◌, if◌then◌else◌}
use mathlib.Core.Option

-- The loop, on `bound` with its last byte first.
unfoldable pub bump_last : Bytes → Option Bytes
bump_last [] = none
bump_last (last ∷ rest) =
    let popped = bump_last rest in if last == 0xff then popped else some ((last + 1) ∷ rest)

unfoldable pub prefix_upper_bound : Bytes → Option Bytes
unfolding bump_last
prefix_upper_bound prefix = Option.map reverse (bump_last (reverse prefix))
