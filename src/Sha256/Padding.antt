-- ===== src/Sha256/Padding.antt =====
-- `finish` and `sha256` of src/sha256.rs: the padding loop, and the digest of a whole message.
use minisqlite.Base.{
  ℕ, zero, suc, ◌+◌, ◌-◌, ◌*◌, ◌%◌, ◌^◌, ◌<◌, ◌≡◌, refl, sym, ap, ◌∙◌, Bytes, [], ◌∷◌, ◌++◌,
  append_assoc, length, length-append, ◌==◌, true, false, arith,
}
use minisqlite.Id.{to_be_bytes}
use minisqlite.Id.Hex.{length-to_be_bytes}
use minisqlite.Sha256.{Sha256, new, blocks, update, pad, finish, sha256}
use minisqlite.Sha256.Compress.{Words, initial, words_bytes}
use minisqlite.Sha256.Feed.{feed, feed-append, length-feed, absorb-feed, blocks-feed, update_room}

abbrev state_buffer : Sha256 → Words × Bytes
state_buffer s = (s.state, s.buffer)

update-feed :
    (s : Sha256) (xs : Bytes)
    → length s.buffer < 64
    → state_buffer (update s xs) ≡ feed s.state s.buffer xs
unfolding update
update-feed s xs room = absorb-feed s.state s.buffer xs room

unfoldable pub zeros : ℕ → Bytes
zeros zero = []
zeros (suc n) = 0 ∷ zeros n

length-zeros : (n : ℕ) → length (zeros n) ≡ n
unfolding zeros
length-zeros zero = refl
length-zeros (suc n) = omega (arith, length-zeros n)

length-update :
    (s : Sha256) (xs : Bytes)
    → length s.buffer < 64
    → length (update s xs).buffer ≡ (length s.buffer + length xs) % 64
length-update s xs room =
    ap (λ (p : Words × Bytes). length p.1) (update-feed s xs room)
    ∙ length-feed s.state s.buffer xs room

-- The loop ends with 56 bytes in the buffer, and has fed that many zero bytes.
pad-feed :
    (n fuel : ℕ) (s : Sha256)
    → length s.buffer < 64
    → (length s.buffer + n) % 64 ≡ 56
    → n < 64
    → n < fuel
    → state_buffer (pad fuel s) ≡ feed s.state s.buffer (zeros n)
unfolding pad zeros feed
pad-feed n zero s room e h k = elim k [ ]
pad-feed zero (suc fuel) s room e h k =
    let t : (length s.buffer == 56) ≡ true = ground (arith, e, room) in rw t refl
pad-feed (suc n) (suc fuel) s room e h k =
    let t : (length s.buffer == 56) ≡ false = ground (arith, e, room, h) in
    let l = length-update s (0 ∷ []) room in
    rw t (
      pad-feed n fuel (update s (0 ∷ [])) (update_room s (0 ∷ []) room) (omega (arith, l, e, h))
        (omega (arith, h)) (omega (arith, k))
      ∙ ap (λ (p : Words × Bytes). feed p.0 p.1 (zeros n)) (update-feed s (0 ∷ []) room)
      ∙ sym (feed-append s.state s.buffer (0 ∷ []) (zeros n)))

-- FIPS 180-4, 5.1.1: a one bit, zeros up to 8 bytes before the end of a block, the length in bits.
unfoldable pub zero_count : ℕ → ℕ
zero_count n = (119 - n % 64) % 64

unfoldable pub padded : Bytes → Bytes
padded m = m ++ 0x80 ∷ (zeros (zero_count (length m)) ++ to_be_bytes 8 (8 * length m % 2 ^ 64))

length-padded : (m : Bytes) → length (padded m) % 64 ≡ 0
unfolding padded zero_count
length-padded m =
    let z = zeros (zero_count (length m)) in
    let l = to_be_bytes 8 (8 * length m % 2 ^ 64) in
    omega (
      arith,
      length-append m (0x80 ∷ (z ++ l)),
      length-append z l,
      length-zeros (zero_count (length m)),
      length-to_be_bytes 8 (8 * length m % 2 ^ 64),
    )

module _ (m : Bytes) where
  room : length (update new m).buffer < 64
  unfolding new
  room = update_room new m (omega arith)

  fed : state_buffer (update new m) ≡ feed initial [] m
  unfolding new
  fed = update-feed new m (omega arith)

  -- The message, the one bit and the zeros.
  front : Bytes
  front = (m ++ 0x80 ∷ []) ++ zeros (zero_count (length m))

  started : Sha256
  started = update (update new m) (0x80 ∷ [])

  started-feed : state_buffer started ≡ feed initial [] (m ++ 0x80 ∷ [])
  unfolding started
  started-feed =
      update-feed (update new m) (0x80 ∷ []) room
      ∙ ap (λ (p : Words × Bytes). feed p.0 p.1 (0x80 ∷ [])) fed
      ∙ sym (feed-append initial [] m (0x80 ∷ []))

  length-started : length started.buffer ≡ (length m + 1) % 64
  length-started =
      ap (λ (p : Words × Bytes). length p.1) started-feed
      ∙ length-feed initial [] (m ++ 0x80 ∷ []) (omega arith)
      ∙ omega (arith, length-append m (0x80 ∷ []))

  started_room : length started.buffer < 64
  started_room = omega (arith, length-started)

  ended-feed : state_buffer (pad 64 started) ≡ feed initial [] front
  unfolding zero_count front
  ended-feed =
      pad-feed (zero_count (length m)) 64 started started_room (omega (arith, length-started))
        (omega arith) (omega arith)
      ∙ ap (λ (p : Words × Bytes). feed p.0 p.1 (zeros (zero_count (length m)))) started-feed
      ∙ sym (feed-append initial [] (m ++ 0x80 ∷ []) (zeros (zero_count (length m))))

  length-ended : length (pad 64 started).buffer ≡ 56
  unfolding front zero_count
  length-ended =
      ap (λ (p : Words × Bytes). length p.1) ended-feed
      ∙ length-feed initial [] front (omega arith)
      ∙ omega (
        arith,
        length-append m (0x80 ∷ []),
        length-append (m ++ 0x80 ∷ []) (zeros (zero_count (length m))),
        length-zeros (zero_count (length m)),
      )

  total_bits : (update new m).total_len * 8 % 2 ^ 64 ≡ 8 * length m % 2 ^ 64
  unfolding new update
  total_bits = omega arith

  front-padded : front ++ to_be_bytes 8 (8 * length m % 2 ^ 64) ≡ padded m
  unfolding front padded
  front-padded =
      append_assoc (m ++ 0x80 ∷ []) (zeros (zero_count (length m)))
        (to_be_bytes 8 (8 * length m % 2 ^ 64))
      ∙ append_assoc m (0x80 ∷ [])
          (zeros (zero_count (length m)) ++ to_be_bytes 8 (8 * length m % 2 ^ 64))

  -- The digest of a message is the block loop over the message padded as FIPS 180-4 says; the
  -- padding loop ends with 56 bytes in the buffer within 64 rounds; and the padded message is a
  -- whole number of blocks.
  pub sha256-padded :
      (sha256 m ≡ words_bytes (blocks (length (padded m)) initial (padded m)).0)
      × (length (pad 64 (update (update new m) (0x80 ∷ []))).buffer ≡ 56)
      × (length (padded m) % 64 ≡ 0)
  unfolding sha256 finish started
  sha256-padded = (
    ap (λ (p : Words × Bytes). words_bytes p.0)
        (ap (λ n. state_buffer (update (pad 64 started) (to_be_bytes 8 n))) total_bits
          ∙ update-feed (pad 64 started) (to_be_bytes 8 (8 * length m % 2 ^ 64))
              (omega (arith, length-ended))
          ∙ ap (λ (p : Words × Bytes). feed p.0 p.1 (to_be_bytes 8 (8 * length m % 2 ^ 64)))
              ended-feed
          ∙ sym (feed-append initial [] front (to_be_bytes 8 (8 * length m % 2 ^ 64)))
          ∙ ap (feed initial []) front-padded
          ∙ sym (blocks-feed (length (padded m)) initial (padded m) (omega arith))),
    length-ended,
    length-padded m,
  )
