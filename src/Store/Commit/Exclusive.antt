-- ===== src/Store/Commit/Exclusive.antt =====
-- Leased jobs and partitions after `commit` of src/store/commit.rs.
use minisqlite.Base.{◌≡◌, Bool, false, ◌&&◌, List, [], ◌∷◌, All, All-mono, arith}
use minisqlite.Jobs.State.{is_leased}
use minisqlite.Store.Schema.{JobRow}
use minisqlite.Store.Jobs.Rows.{Before, Chain, same_partition}

abbrev pub both_leased : JobRow → JobRow → Bool
both_leased r s = is_leased r.state && (is_leased s.state && same_partition r s)

-- No two rows are leased jobs of one partition.
unfoldable pub Exclusive : List JobRow → Type 0
Exclusive [] = Unit
Exclusive (r ∷ rs) = All (λ s. both_leased r s ≡ false) rs × Exclusive rs

Before-exclusive : (r s : JobRow) → Before r s → both_leased r s ≡ false
Before-exclusive r s b = ground (arith, b.waits)

pub Chain-Exclusive : (xs : List JobRow) → Chain xs → Exclusive xs
unfolding Exclusive
Chain-Exclusive [] c = tt
Chain-Exclusive (x ∷ xs) c = (
  All-mono (Before x) (λ s. both_leased x s ≡ false) xs (Before-exclusive x) c.0,
  Chain-Exclusive xs c.1,
)
