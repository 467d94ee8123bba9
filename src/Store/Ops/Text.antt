-- ===== src/Store/Ops/Text.antt =====
-- The text functions of src/store/ops.rs. A UTF-8 text is its bytes; the characters that
-- `json_escape` replaces are single bytes.
use minisqlite.Base.{
  ℕ, ◌/◌, ◌%◌, ℤ, pos, Bytes, utf8, [], ◌∷◌, ◌++◌, concat, Bool, true, false, ◌==◌, ltb, Option,
  none, some, length, if◌then◌else◌,
}
use minisqlite.Id.{hex_digit, hex_bytes}
use minisqlite.Jobs.State.{JobState, name, decode}
use minisqlite.Store.Claims.Run.{decimal}

-- What `json_escape` writes for one character; `{:04x}` of a byte is two zeros and its digits.
unfoldable pub escape_byte : ℕ → Bytes
unfolding hex_digit
escape_byte b =
    if b == b'"'
    then utf8 "\\\""
    else if b == b'\\'
    then utf8 "\\\\"
    else if b == b'\n'
    then utf8 "\\n"
    else if b == b'\r'
    then utf8 "\\r"
    else if b == b'\t'
    then utf8 "\\t"
    else if ltb b 0x20
    then utf8 "\\u00" ++ hex_digit (b / 16) ∷ hex_digit (b % 16) ∷ []
    else b ∷ []

unfoldable pub json_escape : Bytes → Bytes
unfolding escape_byte
json_escape [] = []
json_escape (b ∷ bs) = escape_byte b ++ json_escape bs

unfoldable pub opt_i64 : Option ℤ → Bytes
unfolding decimal
opt_i64 none = utf8 "null"
opt_i64 (some v) = decimal v

unfoldable pub opt_string : Option Bytes → Bytes
unfolding json_escape
opt_string none = utf8 "null"
opt_string (some v) = utf8 "\"" ++ (json_escape v ++ utf8 "\"")

-- `{}` of an unsigned number.
unfoldable pub number : ℕ → Bytes
unfolding decimal
number n = decimal (pos n)

unfoldable pub payload_fields : Bytes → Bool → Bytes
unfolding number hex_bytes concat
payload_fields payload true = concat (
    utf8 "\"payload_len\":"
    ∷ number (length payload)
    ∷ utf8 ",\"payload_hex\":\""
    ∷ hex_bytes payload
    ∷ utf8 "\""
    ∷ [])
payload_fields payload false = utf8 "\"payload_len\":" ++ number (length payload)

abbrev pub summary_length : Option Bytes → Option ℤ
summary_length none = none
summary_length (some s) = some (pos (length s))

unfoldable pub error_summary_fields : Option Bytes → Bool → Bytes
unfolding opt_string opt_i64
error_summary_fields error_summary true = utf8 "\"error_summary\":" ++ opt_string error_summary
error_summary_fields error_summary false =
    utf8 "\"error_summary_len\":" ++ opt_i64 (summary_length error_summary)

-- The fields of a projection entry's value.
unfoldable pub value_fields : Bytes → Bool → Bytes
unfolding number hex_bytes concat
value_fields value true = concat (
    utf8 "\"value_len\":"
    ∷ number (length value)
    ∷ utf8 ",\"value_hex\":\""
    ∷ hex_bytes value
    ∷ utf8 "\""
    ∷ [])
value_fields value false = utf8 "\"value_len\":" ++ number (length value)

abbrev pub name_of : ℤ → Option JobState → Bytes
name_of code none = concat (utf8 "unknown(" ∷ decimal code ∷ utf8 ")" ∷ [])
name_of code (some state) = name state

unfoldable pub state_name : ℤ → Bytes
unfolding decode
state_name code = name_of code (decode code)
