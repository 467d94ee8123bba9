-- ===== src/Sha256/Feed.antt =====
-- The hasher of src/sha256.rs as a machine that takes one byte at a time.
use Prim.Native.Nat.{min}
use minisqlite.Base.{
  ℕ, zero, suc, ◌+◌, ◌-◌, ◌%◌, ◌≤◌, ◌<◌, ◌≡◌, refl, ap, sym, ◌∙◌, Bytes, [], ◌∷◌, ◌++◌, ◌==◌,
  length, length-append, take, if◌then◌else◌, arith, append_assoc, append-nil, Bool-cases, inl, inr,
  le→leb, lt→leb, lt→ne, dec_lt,
}
use minisqlite.Sha256.{Sha256, drop, blocks, after_fill, absorb, update}
use minisqlite.Sha256.Compress.{Words, compress}

-- Each byte goes into the buffer, and a buffer of 64 bytes is compressed and emptied.
unfoldable pub feed : Words → Bytes → Bytes → Words × Bytes
feed w buffer [] = (w, buffer)
feed w buffer (x ∷ xs) =
    let full = feed (compress w (buffer ++ x ∷ [])) [] xs in
    let partial = feed w (buffer ++ x ∷ []) xs in if length buffer == 63 then full else partial

length-snoc : (xs : Bytes) (x : ℕ) → length (xs ++ x ∷ []) ≡ length xs + 1
length-snoc xs x = length-append xs (x ∷ [])

pub feed-append :
    (w : Words) (buffer xs ys : Bytes)
    → feed w buffer (xs ++ ys) ≡ feed (feed w buffer xs).0 (feed w buffer xs).1 ys
unfolding feed
feed-append w buffer [] ys = refl
feed-append w buffer (x ∷ xs) ys = elim (Bool-cases (length buffer == 63)) [
  | inl full ↦ rw full (feed-append (compress w (buffer ++ x ∷ [])) [] xs ys)
  | inr room ↦ rw room (feed-append w (buffer ++ x ∷ []) xs ys)
]

-- Fewer bytes than fill the buffer stay in it.
feed_short :
    (w : Words) (buffer xs : Bytes)
    → length buffer + length xs < 64
    → feed w buffer xs ≡ (w, buffer ++ xs)
unfolding feed
feed_short w buffer [] h = rw append-nil
feed_short w buffer (x ∷ xs) h = ground (
  arith,
  feed_short w (buffer ++ x ∷ []) xs,
  length-snoc buffer x,
  append_assoc buffer (x ∷ []) xs,
)

-- Bytes that fill the buffer exactly end in one compression.
feed_full :
    (w : Words) (buffer xs : Bytes)
    → 0 < length xs
    → length buffer + length xs ≡ 64
    → feed w buffer xs ≡ (compress w (buffer ++ xs), [])
unfolding feed
feed_full w buffer [] p h = absurd (omega arith)
feed_full w buffer (x ∷ []) p h = ground arith
feed_full w buffer (x ∷ y ∷ xs) p h = ground (
  arith,
  feed_full w (buffer ++ x ∷ []) (y ∷ xs),
  length-snoc buffer x,
  append_assoc buffer (x ∷ []) (y ∷ xs),
)

take-append-drop : (n : ℕ) (xs : Bytes) → take n xs ++ drop n xs ≡ xs
unfolding drop
take-append-drop zero xs = refl
take-append-drop (suc n) [] = refl
take-append-drop (suc n) (x ∷ xs) = rw (take-append-drop n xs)

length-take : (n : ℕ) (xs : Bytes) → n ≤ length xs → length (take n xs) ≡ n
length-take zero xs h = refl
length-take (suc n) [] h = elim h [ ]
length-take (suc n) (x ∷ xs) h = ap suc (length-take n xs (omega arith))

length-drop : (n : ℕ) (xs : Bytes) → length (drop n xs) ≡ length xs - n
unfolding drop
length-drop zero xs = omega arith
length-drop (suc n) [] = omega arith
length-drop (suc n) (x ∷ xs) = omega (arith, length-drop n xs)

-- The first `n` bytes fill the buffer; the rest goes into an empty one.
feed_split :
    (w : Words) (buffer xs : Bytes) (n : ℕ)
    → 0 < n
    → n ≤ length xs
    → length buffer + n ≡ 64
    → feed w buffer xs ≡ feed (compress w (buffer ++ take n xs)) [] (drop n xs)
feed_split w buffer xs n p le h =
    ap (feed w buffer) (sym (take-append-drop n xs))
    ∙ feed-append w buffer (take n xs) (drop n xs)
    ∙ rw (
        feed_full w buffer (take n xs) (omega (arith, length-take n xs le))
          (omega (arith, length-take n xs le)))

blocks_step :
    (fuel : ℕ) (w : Words) (xs : Bytes)
    → 64 ≤ length xs
    → blocks (suc fuel) w xs ≡ blocks fuel (compress w (take 64 xs)) (drop 64 xs)
unfolding blocks
blocks_step fuel w xs h = rw (le→leb 64 (length xs) h)

blocks_stop :
    (fuel : ℕ) (w : Words) (xs : Bytes) → length xs < 64 → blocks (suc fuel) w xs ≡ (w, xs)
unfolding blocks
blocks_stop fuel w xs h = rw (lt→leb 64 (length xs) h)

pub blocks-feed :
    (fuel : ℕ) (w : Words) (xs : Bytes) → length xs ≤ fuel → blocks fuel w xs ≡ feed w [] xs
blocks-feed zero w [] h = unfold blocks in sym (feed_short w [] [] (omega arith))
blocks-feed zero w (x ∷ xs) h = elim h [ ]
blocks-feed (suc fuel) w xs h = elim (dec_lt (length xs) 64) [
  | yes short ↦ blocks_stop fuel w xs short ∙ sym (feed_short w [] xs (omega arith))
  | no long ↦
      blocks_step fuel w xs (omega arith)
      ∙ blocks-feed fuel (compress w (take 64 xs)) (drop 64 xs) (omega (arith, length-drop 64 xs))
      ∙ sym (feed_split w [] xs 64 (omega arith) (omega arith) (omega arith))
]

take_all : (xs : Bytes) → take (length xs) xs ≡ xs
take_all [] = refl
take_all (x ∷ xs) = ap (λ t. x ∷ t) (take_all xs)

after_fill_full :
    (w : Words) (filled xs : Bytes)
    → length filled ≡ 64
    → after_fill w filled xs ≡ feed (compress w filled) [] xs
unfolding after_fill
after_fill_full w filled xs h = rw h (blocks-feed (length xs) (compress w filled) xs (omega arith))

after_fill_short :
    (w : Words) (filled xs : Bytes) → length filled < 64 → after_fill w filled xs ≡ (w, filled)
unfolding after_fill
after_fill_short w filled xs h = rw (lt→ne (length filled) 64 h)

-- Topping up a buffer and going on with the rest.
fill-feed :
    (w : Words) (buffer xs : Bytes) (n : ℕ)
    → length buffer < 64
    → n ≡ min (64 - length buffer) (length xs)
    → after_fill w (buffer ++ take n xs) (drop n xs) ≡ feed w buffer xs
fill-feed w buffer xs n room e = elim (dec_lt (length buffer + length xs) 64) [
  | yes short ↦
      let all : n ≡ length xs = omega arith in
      let whole : take n xs ≡ xs = ap (λ k. take k xs) all ∙ take_all xs in
      rw whole (
        after_fill_short w (buffer ++ xs) (drop n xs) (omega (arith, length-append buffer xs))
        ∙ sym (feed_short w buffer xs short))
  | no long ↦
      after_fill_full w (buffer ++ take n xs) (drop n xs)
        (omega (arith, length-append buffer (take n xs), length-take n xs (omega arith)))
      ∙ sym (feed_split w buffer xs n (omega arith) (omega arith) (omega arith))
]

pub absorb-feed :
    (w : Words) (buffer xs : Bytes) → length buffer < 64 → absorb w buffer xs ≡ feed w buffer xs
unfolding absorb
absorb-feed w [] xs room = blocks-feed (length xs) w xs (omega arith)
absorb-feed w (b ∷ bs) xs room = fill-feed w (b ∷ bs) xs _ room refl

pub feed_room :
    (w : Words) (buffer xs : Bytes) → length buffer < 64 → length (feed w buffer xs).1 < 64
unfolding feed
feed_room w buffer [] room = room
feed_room w buffer (x ∷ xs) room = ground (
  arith,
  feed_room (compress w (buffer ++ x ∷ [])) [] xs,
  feed_room w (buffer ++ x ∷ []) xs,
  length-snoc buffer x,
)

pub length-feed :
    (w : Words) (buffer xs : Bytes)
    → length buffer < 64
    → length (feed w buffer xs).1 ≡ (length buffer + length xs) % 64
unfolding feed
length-feed w buffer [] room = omega arith
length-feed w buffer (x ∷ xs) room = ground (
  arith,
  length-feed (compress w (buffer ++ x ∷ [])) [] xs,
  length-feed w (buffer ++ x ∷ []) xs,
  length-snoc buffer x,
)

-- The buffer is never full between two calls: the array of 64 bytes is written in bounds.
pub update_room :
    (s : Sha256) (xs : Bytes) → length s.buffer < 64 → length (update s xs).buffer < 64
unfolding update
update_room s xs room =
    rw (absorb-feed s.state s.buffer xs room) (feed_room s.state s.buffer xs room)
