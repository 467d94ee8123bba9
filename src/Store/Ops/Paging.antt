-- ===== src/Store/Ops/Paging.antt =====
-- Lines, and the paging loop of the exports of src/store/ops.rs.
use minisqlite.Base.{
  ℕ, zero, suc, pos, Bytes, utf8, List, [], ◌∷◌, ◌++◌, concat, map, length, Option, none, some,
  Bool, true, false, ltb, leb, if◌then◌else◌,
}
use minisqlite.Sql.{select, order_by, limit_rows}
use minisqlite.Store.Schema.{}
use minisqlite.Store.Ops.Text.{}

abbrev pub export_page_size : ℕ
export_page_size = 512

-- `writeln!`.
unfoldable pub line : List Bytes → Bytes
unfolding concat
line parts = concat parts ++ b'\n' ∷ []

abbrev pub bool_text : Bool → Bytes
bool_text true = utf8 "true"
bool_text false = utf8 "false"

unfoldable pub last_row {ℓ} : {A : Type ℓ} → Option A → List A → Option A
last_row last [] = last
last_row last (r ∷ rs) = last_row (some r) rs

-- The paging loop: the rows after the last one, in order, 512 at a time, until a short page.
unfoldable pub export_pages {ℓ} :
    {A : Type ℓ}
    → ℕ
    → (Option A → A → Bool)
    → (A → A → Bool)
    → (A → Bytes)
    → List A
    → Option A
    → Bytes
unfolding last_row concat
export_pages zero after le write table last = []
export_pages (suc fuel) after le write table last =
    let page = limit_rows (pos export_page_size) (order_by le (select (after last) table)) in
    let rest = export_pages fuel after le write table (last_row last page) in
    if ltb (length page) export_page_size
    then concat (map write page)
    else concat (map write page) ++ rest

-- One page for each row, and the short one, are enough rounds.
unfoldable pub export_table {ℓ} :
    {A : Type ℓ} → (Option A → A → Bool) → (A → A → Bool) → (A → Bytes) → List A → Bytes
unfolding export_pages
export_table after le write table = export_pages (suc (length table)) after le write table none

-- `WHERE sequence > ?1`, from 0 on.
abbrev pub after_sequence {ℓ} : {A : Type ℓ} → (A → ℕ) → Option A → A → Bool
after_sequence key none r = ltb 0 (key r)
after_sequence key (some l) r = ltb (key l) (key r)

abbrev pub by_key {ℓ} : {A : Type ℓ} → (A → ℕ) → A → A → Bool
by_key key a b = leb (key a) (key b)
