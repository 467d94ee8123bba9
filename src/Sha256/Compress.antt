-- ===== src/Sha256/Compress.antt =====
-- `compress` of src/sha256.rs, with its constants.
use Prim.Native.Nat.{bit_and}
use minisqlite.Base.{
  ℕ, zero, suc, ◌+◌, ◌-◌, ◌*◌, ◌/◌, ◌%◌, ◌^◌, bit_xor, Bytes, List, [], ◌∷◌, ◌++◌, reverse,
}
use minisqlite.Id.{from_be_bytes, to_be_bytes}

abbrev round_constants : List ℕ
round_constants =
    0x428a2f98 ∷ 0x71374491 ∷ 0xb5c0fbcf ∷ 0xe9b5dba5 ∷ 0x3956c25b ∷ 0x59f111f1 ∷ 0x923f82a4
    ∷ 0xab1c5ed5 ∷ 0xd807aa98 ∷ 0x12835b01 ∷ 0x243185be ∷ 0x550c7dc3 ∷ 0x72be5d74 ∷ 0x80deb1fe
    ∷ 0x9bdc06a7 ∷ 0xc19bf174 ∷ 0xe49b69c1 ∷ 0xefbe4786 ∷ 0x0fc19dc6 ∷ 0x240ca1cc ∷ 0x2de92c6f
    ∷ 0x4a7484aa ∷ 0x5cb0a9dc ∷ 0x76f988da ∷ 0x983e5152 ∷ 0xa831c66d ∷ 0xb00327c8 ∷ 0xbf597fc7
    ∷ 0xc6e00bf3 ∷ 0xd5a79147 ∷ 0x06ca6351 ∷ 0x14292967 ∷ 0x27b70a85 ∷ 0x2e1b2138 ∷ 0x4d2c6dfc
    ∷ 0x53380d13 ∷ 0x650a7354 ∷ 0x766a0abb ∷ 0x81c2c92e ∷ 0x92722c85 ∷ 0xa2bfe8a1 ∷ 0xa81a664b
    ∷ 0xc24b8b70 ∷ 0xc76c51a3 ∷ 0xd192e819 ∷ 0xd6990624 ∷ 0xf40e3585 ∷ 0x106aa070 ∷ 0x19a4c116
    ∷ 0x1e376c08 ∷ 0x2748774c ∷ 0x34b0bcb5 ∷ 0x391c0cb3 ∷ 0x4ed8aa4a ∷ 0x5b9cca4f ∷ 0x682e6ff3
    ∷ 0x748f82ee ∷ 0x78a5636f ∷ 0x84c87814 ∷ 0x8cc70208 ∷ 0x90befffa ∷ 0xa4506ceb ∷ 0xbef9a3f7
    ∷ 0xc67178f2 ∷ []

-- The eight words `a` to `h`.
pub record Words : Type 0 where
  pub a : ℕ
  pub b : ℕ
  pub c : ℕ
  pub d : ℕ
  pub e : ℕ
  pub f : ℕ
  pub g : ℕ
  pub h : ℕ

abbrev pub initial : Words
initial = record {
  a = 0x6a09e667;
  b = 0xbb67ae85;
  c = 0x3c6ef372;
  d = 0xa54ff53a;
  e = 0x510e527f;
  f = 0x9b05688c;
  g = 0x1f83d9ab;
  h = 0x5be0cd19;
}

-- `wrapping_add`, `rotate_right` and `!` of a `u32`.
abbrev add32 : ℕ → ℕ → ℕ
add32 x y = (x + y) % 2 ^ 32

abbrev rotate_right : ℕ → ℕ → ℕ
rotate_right x n = x / 2 ^ n + x % 2 ^ n * 2 ^ (32 - n)

abbrev not32 : ℕ → ℕ
not32 x = 2 ^ 32 - 1 - x

abbrev xor3 : ℕ → ℕ → ℕ → ℕ
xor3 x y z = bit_xor (bit_xor x y) z

-- `k n`, with the number computed first, so that a test runs each word once.
abbrev with_value {ℓ} : {A : Type ℓ} → ℕ → (ℕ → A) → A
with_value zero k = k zero
with_value (suc n) k = k (suc n)

-- The first sixteen words of `w`, the last first.
unfoldable pub load_words : Bytes → List ℕ → List ℕ
load_words (p ∷ q ∷ r ∷ s ∷ rest) w =
    with_value (from_be_bytes (p ∷ q ∷ r ∷ s ∷ [])) (λ x. load_words rest (x ∷ w))
load_words _ w = w

abbrev word_at : List ℕ → ℕ → ℕ
word_at [] i = 0
word_at (x ∷ xs) zero = x
word_at (x ∷ xs) (suc i) = word_at xs i

-- `w[i]` from the words before it, the last first.
unfoldable pub next_word : List ℕ → ℕ
next_word w =
    let s0 =
      xor3 (rotate_right (word_at w 14) 7) (rotate_right (word_at w 14) 18)
        (word_at w 14 / 2 ^ 3) in
    let s1 =
      xor3 (rotate_right (word_at w 1) 17) (rotate_right (word_at w 1) 19) (word_at w 1 / 2 ^ 10) in
    add32 (add32 (add32 (word_at w 15) s0) (word_at w 6)) s1

unfoldable pub extend_words : ℕ → List ℕ → List ℕ
unfolding next_word
extend_words zero w = w
extend_words (suc n) w = with_value (next_word w) (λ x. extend_words n (x ∷ w))

-- One round, with its constant and its word.
unfoldable pub round {ℓ} : {A : Type ℓ} → ℕ → ℕ → Words → (Words → A) → A
round k w s next =
    let s1 = xor3 (rotate_right s.e 6) (rotate_right s.e 11) (rotate_right s.e 25) in
    let ch = bit_xor (bit_and s.e s.f) (bit_and (not32 s.e) s.g) in
    with_value (add32 (add32 (add32 (add32 s.h s1) ch) k) w) λ t1.
      let s0 = xor3 (rotate_right s.a 2) (rotate_right s.a 13) (rotate_right s.a 22) in
      let maj = xor3 (bit_and s.a s.b) (bit_and s.a s.c) (bit_and s.b s.c) in
      let t2 = add32 s0 maj in
      with_value (add32 t1 t2) λ a'.
        with_value (add32 s.d t1) λ e'.
          next (record { a = a'; b = s.a; c = s.b; d = s.c; e = e'; f = s.e; g = s.f; h = s.g })

unfoldable pub rounds : List ℕ → List ℕ → Words → Words
unfolding round
rounds (k ∷ ks) (w ∷ ws) s = round k w s (rounds ks ws)
rounds _ _ s = s

unfoldable pub add_words : Words → Words → Words
add_words s t = record {
  a = add32 s.a t.a;
  b = add32 s.b t.b;
  c = add32 s.c t.c;
  d = add32 s.d t.d;
  e = add32 s.e t.e;
  f = add32 s.f t.f;
  g = add32 s.g t.g;
  h = add32 s.h t.h;
}

unfoldable pub compress : Words → Bytes → Words
unfolding load_words extend_words rounds add_words
compress s block =
    add_words s (rounds round_constants (reverse (extend_words 48 (load_words block []))) s)

-- `to_be_bytes` of each word of the state.
unfoldable pub words_bytes : Words → Bytes
unfolding to_be_bytes
words_bytes s =
    to_be_bytes 4 s.a
    ++ (to_be_bytes 4 s.b
        ++ (to_be_bytes 4 s.c
            ++ (to_be_bytes 4 s.d
                ++ (to_be_bytes 4 s.e
                    ++ (to_be_bytes 4 s.f ++ (to_be_bytes 4 s.g ++ to_be_bytes 4 s.h))))))
