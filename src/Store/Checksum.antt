-- ===== src/Store/Checksum.antt =====
-- `checksum` of src/store/migrations.rs: FNV-1a over 128-bit words.
use minisqlite.Base.{ℕ, ◌*◌, ◌%◌, ◌^◌, Bytes, [], ◌∷◌, bit_xor}
use minisqlite.Id.{to_be_bytes}

abbrev offset_basis : ℕ
offset_basis = 0x6c62272e07bb014262b821756295c58d

abbrev prime : ℕ
prime = 0x0000000001000000000000000000013b

unfoldable pub mix_bytes : ℕ → Bytes → ℕ
mix_bytes state [] = state
mix_bytes state (b ∷ bs) = mix_bytes (bit_xor state b * prime % 2 ^ 128) bs

unfoldable pub checksum : Bytes → Bytes
unfolding mix_bytes to_be_bytes
checksum sql = to_be_bytes 16 (mix_bytes offset_basis sql)
