-- ===== src/Id.antt =====
-- src/id.rs: 128-bit identifiers. An `Id` is the number whose sixteen big-endian bytes the source
-- keeps (`From<u128>`), so the source's bytewise order of ids is the order of these numbers.
pub mod Hex
use minisqlite.Base.{
  ℕ, zero, suc, ◌+◌, ◌-◌, ◌*◌, ◌/◌, ◌%◌, ◌^◌, List, [], ◌∷◌, ◌++◌, Bytes, Option, none, some, ltb,
  leb, ◌==◌, ◌&&◌, if◌then◌else◌, length, Result, ok, err, ok_or, reject_if, ◌>>=◌, ◌>>◌, not,
}

abbrev pub Id128 : Type 0
Id128 = ℕ

abbrev pub zero_id : Id128
zero_id = 0

-- `to_be_bytes` of a word of `n` bytes.
unfoldable pub to_be_bytes : ℕ → ℕ → Bytes
to_be_bytes zero v = []
to_be_bytes (suc n) v = to_be_bytes n (v / 256) ++ (v % 256) ∷ []

unfoldable pub be_value : ℕ → Bytes → ℕ
be_value acc [] = acc
be_value acc (b ∷ bs) = be_value (acc * 256 + b) bs

unfoldable pub from_be_bytes : Bytes → ℕ
unfolding be_value
from_be_bytes bs = be_value 0 bs

-- `Id::as_bytes` and `Id::from_bytes`.
unfoldable pub as_bytes : Id128 → Bytes
unfolding to_be_bytes
as_bytes id = to_be_bytes 16 id

unfoldable pub from_bytes : Bytes → Id128
unfolding from_be_bytes
from_bytes bs = from_be_bytes bs

pub data InvalidId : Type 0 where
  invalid_id : InvalidId

-- The lower-case digit of a half byte, `HEX[d]`.
unfoldable pub hex_digit : ℕ → ℕ
hex_digit d = if ltb d 10 then b'0' + d else b'a' + (d - 10)

unfoldable pub hex_value : ℕ → Option ℕ
hex_value b =
    if leb b'0' b && leb b b'9'
    then some (b - b'0')
    else if leb b'a' b && leb b b'f'
    then some (b - b'a' + 10)
    else if leb b'A' b && leb b b'F'
    then some (b - b'A' + 10)
    else none

unfoldable pub hex_bytes : Bytes → Bytes
unfolding hex_digit
hex_bytes [] = []
hex_bytes (b ∷ bs) = hex_digit (b / 16) ∷ hex_digit (b % 16) ∷ hex_bytes bs

unfoldable pub to_hex : Id128 → Bytes
unfolding hex_bytes as_bytes
to_hex id = hex_bytes (as_bytes id)

-- The loop over `as_chunks::<2>`; `(high << 4) | low` of two half bytes is `high * 16 + low`.
unfoldable pub parse_chunks : Bytes → Result Bytes InvalidId
unfolding hex_value
parse_chunks (h ∷ l ∷ rest) = do
  high ← ok_or (hex_value h) invalid_id
  low ← ok_or (hex_value l) invalid_id
  bytes ← parse_chunks rest
  ok ((high * 16 + low) ∷ bytes)
parse_chunks _ = ok []

unfoldable pub from_hex : Bytes → Result Id128 InvalidId
unfolding parse_chunks from_bytes
from_hex s = do
  reject_if (not (length s == 32)) invalid_id
  bytes ← parse_chunks s
  ok (from_bytes bytes)
