-- ===== src/Id/Hex.antt =====
-- The printed form of an id (src/id.rs) and the bytes of a word.
use native.Mathlib.Nat.{pow-suc}
use minisqlite.Base.{
  ℕ, zero, suc, ◌+◌, ◌*◌, ◌/◌, ◌%◌, ◌^◌, ◌<◌, ◌≡◌, refl, ap, ◌∙◌, [], ◌∷◌, ◌++◌, Bytes, All,
  All-append, ok, length, length-append, arith, some,
}
use minisqlite.Id.{
  Id128, to_be_bytes, be_value, from_be_bytes, as_bytes, from_bytes, hex_digit, hex_value,
  hex_bytes, to_hex, parse_chunks, from_hex,
}

abbrev pub IsByte : ℕ → Type 0
IsByte b = b < 256

pub to_be_bytes-IsByte : (n v : ℕ) → All IsByte (to_be_bytes n v)
unfolding to_be_bytes
to_be_bytes-IsByte zero v = tt
to_be_bytes-IsByte (suc n) v =
    All-append IsByte (to_be_bytes n (v / 256)) _ (to_be_bytes-IsByte n (v / 256)) (omega arith, tt)

pub length-to_be_bytes : (n v : ℕ) → length (to_be_bytes n v) ≡ n
unfolding to_be_bytes
length-to_be_bytes zero v = refl
length-to_be_bytes (suc n) v =
    length-append (to_be_bytes n (v / 256)) _ ∙ omega (arith, length-to_be_bytes n (v / 256))

be_value-snoc : (acc b : ℕ) (bs : Bytes) → be_value acc (bs ++ b ∷ []) ≡ be_value acc bs * 256 + b
unfolding be_value
be_value-snoc acc b [] = refl
be_value-snoc acc b (c ∷ bs) = be_value-snoc (acc * 256 + c) b bs

-- A word of `n` bytes is read back from its big-endian bytes.
pub from_be_bytes-to_be_bytes : (n v : ℕ) → v < 256 ^ n → from_be_bytes (to_be_bytes n v) ≡ v
unfolding to_be_bytes from_be_bytes
from_be_bytes-to_be_bytes zero v h = omega arith
from_be_bytes-to_be_bytes (suc n) v h =
    be_value-snoc 0 (v % 256) (to_be_bytes n (v / 256))
    ∙ omega (arith, from_be_bytes-to_be_bytes n (v / 256) (omega (arith, pow-suc 256 n)))

length-hex_bytes : (bs : Bytes) → length (hex_bytes bs) ≡ 2 * length bs
unfolding hex_bytes
length-hex_bytes [] = refl
length-hex_bytes (b ∷ bs) = omega (arith, length-hex_bytes bs)

pub hex_value-hex_digit : (d : ℕ) → d < 16 → hex_value (hex_digit d) ≡ some d
unfolding hex_value hex_digit
hex_value-hex_digit d h = ground arith

pub parse_chunks-hex_bytes : (bs : Bytes) → All IsByte bs → parse_chunks (hex_bytes bs) ≡ ok bs
unfolding parse_chunks hex_bytes
parse_chunks-hex_bytes [] h = refl
parse_chunks-hex_bytes (b ∷ bs) h =
    rw
      (
        hex_value-hex_digit (b / 16) (omega arith),
        hex_value-hex_digit (b % 16) (omega arith),
        parse_chunks-hex_bytes bs h.1,
      )
      (ap (λ x. ok (x ∷ bs)) (omega arith))

from_hex_of_chunks :
    (s bs : Bytes) → length s ≡ 32 → parse_chunks s ≡ ok bs → from_hex s ≡ ok (from_bytes bs)
unfolding from_hex
from_hex_of_chunks s bs h e = rw (h, e)

to_hex_lem : (id : Id128) → to_hex id ≡ hex_bytes (to_be_bytes 16 id)
unfolding to_hex as_bytes
to_hex_lem id = refl

from_bytes_lem : (bs : Bytes) → from_bytes bs ≡ from_be_bytes bs
unfolding from_bytes
from_bytes_lem bs = refl

-- Every id below 2 ^ 128 is read back from its hexadecimal text.
pub from_hex-to_hex : (id : Id128) → id < 2 ^ 128 → from_hex (to_hex id) ≡ ok id
from_hex-to_hex id h = rw to_hex_lem (
    from_hex_of_chunks (hex_bytes (to_be_bytes 16 id)) (to_be_bytes 16 id)
      (omega (arith, length-hex_bytes (to_be_bytes 16 id), length-to_be_bytes 16 id))
      (parse_chunks-hex_bytes (to_be_bytes 16 id) (to_be_bytes-IsByte 16 id))
    ∙ ap ok (from_bytes_lem (to_be_bytes 16 id) ∙ from_be_bytes-to_be_bytes 16 id h))
