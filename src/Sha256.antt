-- ===== src/Sha256.antt =====
-- src/sha256.rs: the incremental SHA-256 hasher. A word is a number below 2 ^ 32, and the filled
-- part of `buffer` is a list, whose length is `buffer_len`.
pub mod Compress
pub mod Feed
pub mod Update
pub mod Padding
use minisqlite.Base.{
  ℕ, zero, suc, ◌+◌, ◌-◌, ◌*◌, ◌%◌, ◌^◌, Bytes, List, [], ◌∷◌, ◌++◌, Bool, true, false, ◌==◌, leb,
  ltb, length, take, is_empty, if◌then◌else◌, not,
}
use Prim.Native.Nat.{min}
use minisqlite.Id.{to_be_bytes}
use Compress.{Words, initial, compress, words_bytes}

pub record Sha256 : Type 0 where
  pub state : Words
  pub buffer : Bytes
  pub total_len : ℕ

unfoldable pub new : Sha256
new = record { state = initial; buffer = []; total_len = 0 }

unfoldable pub drop : ℕ → Bytes → Bytes
drop zero xs = xs
drop (suc n) [] = []
drop (suc n) (x ∷ xs) = drop n xs

-- `while data.len() >= 64`, and the rest that is copied into the empty buffer.
unfoldable pub blocks : ℕ → Words → Bytes → Words × Bytes
unfolding drop
blocks zero w bytes = (w, bytes)
blocks (suc fuel) w bytes =
    let rest = blocks fuel (compress w (take 64 bytes)) (drop 64 bytes) in
    if leb 64 (length bytes) then rest else (w, bytes)

-- The part of `update` after the partly filled buffer was topped up to `filled`.
unfoldable pub after_fill : Words → Bytes → Bytes → Words × Bytes
unfolding blocks
after_fill w filled bytes =
    if length filled == 64 then blocks (length bytes) (compress w filled) bytes else (w, filled)

-- `update`, on the words and the buffer.
unfoldable pub absorb : Words → Bytes → Bytes → Words × Bytes
unfolding after_fill blocks drop
absorb w [] bytes = blocks (length bytes) w bytes
absorb w buffer bytes =
    after_fill w (buffer ++ take (min (64 - length buffer) (length bytes)) bytes)
      (drop (min (64 - length buffer) (length bytes)) bytes)

unfoldable pub update : Sha256 → Bytes → Sha256
unfolding absorb
update s bytes =
    let (w, b) = absorb s.state s.buffer bytes in
    record { state = w; buffer = b; total_len = (s.total_len + length bytes) % 2 ^ 64 }

-- `while self.buffer_len != 56 { self.update(&[0]) }`.
unfoldable pub pad : ℕ → Sha256 → Sha256
unfolding update
pad zero s = s
pad (suc fuel) s =
    let rest = pad fuel (update s (0 ∷ [])) in if length s.buffer == 56 then s else rest

-- At most 63 zero bytes lead from any buffer length to 56.
unfoldable pub finish : Sha256 → Bytes
unfolding update pad
finish s =
    words_bytes
      (update (pad 64 (update s (0x80 ∷ []))) (to_be_bytes 8 (s.total_len * 8 % 2 ^ 64))).state

-- What the `Digest` of src/transaction.rs makes of the bytes written to it, in one piece.
unfoldable pub sha256 : Bytes → Bytes
unfolding new update finish
sha256 bytes = finish (update new bytes)
