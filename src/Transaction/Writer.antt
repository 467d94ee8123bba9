-- ===== src/Transaction/Writer.antt =====
-- The `Digest` writers of src/transaction.rs: the bytes that each hands to `write_raw`.
use minisqlite.Base.{ℕ, ◌-◌, ◌^◌, ℤ, pos, negsuc, Bytes, [], ◌∷◌, ◌++◌, Option, none, some, length}
use minisqlite.Id.{Id128, to_be_bytes, as_bytes}

unfoldable pub write_u8 : ℕ → Bytes
write_u8 v = v ∷ []

unfoldable pub write_u64 : ℕ → Bytes
unfolding to_be_bytes
write_u64 v = to_be_bytes 8 v

-- The two's complement word of an `i64`.
unfoldable pub i64_word : ℤ → ℕ
i64_word (pos n) = n
i64_word (negsuc n) = 2 ^ 64 - 1 - n

unfoldable pub write_i64 : ℤ → Bytes
unfolding write_u64 i64_word
write_i64 v = write_u64 (i64_word v)

unfoldable pub write_bytes : Bytes → Bytes
unfolding write_u64
write_bytes bs = write_u64 (length bs) ++ bs

-- `write_str` writes the bytes of its text.
unfoldable pub write_str : Bytes → Bytes
unfolding write_bytes
write_str s = write_bytes s

unfoldable pub write_id : Id128 → Bytes
unfolding as_bytes
write_id id = as_bytes id

unfoldable pub write_opt_id : Option Id128 → Bytes
unfolding write_u8 write_id
write_opt_id none = write_u8 0
write_opt_id (some id) = write_u8 1 ++ write_id id

-- The tagged form of `Option<String>`, `Option<Vec<u8>>` and `Option<i64>` fields.
unfoldable pub write_opt_bytes : Option Bytes → Bytes
unfolding write_u8 write_bytes
write_opt_bytes none = write_u8 0
write_opt_bytes (some bs) = write_u8 1 ++ write_bytes bs

unfoldable pub write_opt_i64 : Option ℤ → Bytes
unfolding write_u8 write_i64
write_opt_i64 none = write_u8 0
write_opt_i64 (some v) = write_u8 1 ++ write_i64 v
