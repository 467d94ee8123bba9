-- ===== src/Store/Ops/Escape.antt =====
-- `json_escape` of src/store/ops.rs read back as the inside of a JSON string.
use minisqlite.Base.{
  ℕ, zero, suc, ◌+◌, ◌*◌, ◌<◌, ◌/◌, ◌%◌, ◌≡◌, refl, ap, ◌∙◌, Bytes, [], ◌∷◌, ◌++◌, true, ◌==◌, ◌||◌,
  ltb, Option, none, some, All, utf8, arith, Bool-cases, inl, inr, if◌then◌else◌,
}
use minisqlite.Id.{hex_digit, hex_value}
use minisqlite.Id.Hex.{IsByte, hex_value-hex_digit}
use minisqlite.Store.Ops.Text.{escape_byte, json_escape}

-- Where a reader of a JSON string is: at a character, after a backslash, or with so many digits
-- of a code point to come.
pub data Place : Type 0 where
  plain slash : Place
  unicode : ℕ → ℕ → Place

abbrev push : ℕ → Option Bytes → Option Bytes
push b none = none
push b (some bs) = some (b ∷ bs)

-- The character of a short escape, and `none` for what is none.
unfoldable pub short_escape : ℕ → Option ℕ
short_escape b =
    if b == b'"' || b == b'\\'
    then some b
    else if b == b'n'
    then some b'\n'
    else if b == b'r'
    then some b'\r'
    else if b == b't'
    then some b'\t'
    else none

abbrev push_option : Option ℕ → Option Bytes → Option Bytes
push_option none bs = none
push_option (some b) bs = push b bs

abbrev digit : Option ℕ → ℕ → (ℕ → Option Bytes) → Option Bytes
digit none code k = none
digit (some d) code k = k (code * 16 + d)

-- A JSON string's characters from its text, up to code points of one byte; `none` when a quote
-- or a control character stands unescaped.
unfoldable pub read_string : Place → Bytes → Option Bytes
unfolding short_escape hex_value
read_string plain [] = some []
read_string slash [] = none
read_string (unicode n code) [] = none
read_string plain (b ∷ bs) =
    let escaped = read_string slash bs in
    let rest = read_string plain bs in
    if b == b'\\' then escaped else if b == b'"' || ltb b 0x20 then none else push b rest
read_string slash (b ∷ bs) =
    let code = read_string (unicode 3 0) bs in
    let rest = read_string plain bs in if b == b'u' then code else push_option (short_escape b) rest
read_string (unicode zero code) (b ∷ bs) =
    digit (hex_value b) code
      (λ c. let rest = read_string plain bs in if ltb c 0x80 then push c rest else none)
read_string (unicode (suc n) code) (b ∷ bs) =
    digit (hex_value b) code (λ c. read_string (unicode n c) bs)

ascii :
    (code b : ℕ) (rest : Option Bytes)
    → code ≡ b
    → ltb b 0x20 ≡ true
    → (if ltb code 0x80 then push code rest else none) ≡ push b rest
ascii code b rest e c = let low : ltb b 0x80 ≡ true = ground (arith, c) in rw (e, low) refl

read_control :
    (b : ℕ) (rest : Bytes)
    → ltb b 0x20 ≡ true
    → read_string plain (utf8 "\\u00" ++ hex_digit (b / 16) ∷ hex_digit (b % 16) ∷ rest)
      ≡ push b (read_string plain rest)
unfolding read_string
read_control b rest c =
    rw
      (hex_value-hex_digit (b / 16) (ground (arith, c)), hex_value-hex_digit (b % 16) (omega arith))
      (ascii _ b _ (omega arith) c)

read_string-escape_byte :
    (b : ℕ) (rest : Bytes)
    → b < 256
    → read_string plain (escape_byte b ++ rest) ≡ push b (read_string plain rest)
unfolding read_string escape_byte short_escape
read_string-escape_byte b rest h = elim (Bool-cases (b == b'"')) [
  | inl e ↦ let s : b ≡ b'"' = ground (arith, e) in rw s refl
  | inr n₁ ↦ elim (Bool-cases (b == b'\\')) [
    | inl e ↦ let s : b ≡ b'\\' = ground (arith, e) in rw s refl
    | inr n₂ ↦ elim (Bool-cases (b == b'\n')) [
      | inl e ↦ let s : b ≡ b'\n' = ground (arith, e) in rw s refl
      | inr n₃ ↦ elim (Bool-cases (b == b'\r')) [
        | inl e ↦ let s : b ≡ b'\r' = ground (arith, e) in rw s refl
        | inr n₄ ↦ elim (Bool-cases (b == b'\t')) [
          | inl e ↦ let s : b ≡ b'\t' = ground (arith, e) in rw s refl
          | inr n₅ ↦ elim (Bool-cases (ltb b 0x20)) [
            | inl c ↦ rw (n₁, n₂, n₃, n₄, n₅, c) (read_control b rest c)
            | inr c ↦ rw (n₁, n₂, n₃, n₄, n₅, c, n₂, n₁, c) refl
          ]
        ]
      ]
    ]
  ]
]

-- For a byte string, what `json_escape` writes is the inside of a JSON string that reads back
-- as it.
pub read_string-json_escape :
    (s : Bytes) → All IsByte s → read_string plain (json_escape s) ≡ some s
unfolding json_escape read_string
read_string-json_escape [] h = refl
read_string-json_escape (b ∷ bs) h =
    read_string-escape_byte b (json_escape bs) h.0 ∙ ap (push b) (read_string-json_escape bs h.1)
