-- ===== src/Sha256/Update.antt =====
-- `update` of src/sha256.rs in several calls, and the padding of `finish`.
use minisqlite.Base.{
  ℕ, ◌+◌, ◌%◌, ◌^◌, ◌<◌, ◌≡◌, ap, sym, ◌∙◌, Bytes, ◌++◌, length, length-append, arith,
}
use minisqlite.Sha256.{Sha256, update}
use minisqlite.Sha256.Feed.{feed, feed-append, feed_room, absorb-feed}

abbrev state_of : Sha256 → Bytes → Sha256
state_of s xs = record {
  state = (feed s.state s.buffer xs).0;
  buffer = (feed s.state s.buffer xs).1;
  total_len = (s.total_len + length xs) % 2 ^ 64;
}

update_lem : (s : Sha256) (xs : Bytes) → length s.buffer < 64 → update s xs ≡ state_of s xs
unfolding update
update_lem s xs room = rw (absorb-feed s.state s.buffer xs room)

state_of-append : (s : Sha256) (xs ys : Bytes) → state_of (state_of s xs) ys ≡ state_of s (xs ++ ys)
state_of-append s xs ys = rw (feed-append s.state s.buffer xs ys) (
    ap
      (λ (n : ℕ).
        let r : Sha256 = record {
          state = (feed (feed s.state s.buffer xs).0 (feed s.state s.buffer xs).1 ys).0;
          buffer = (feed (feed s.state s.buffer xs).0 (feed s.state s.buffer xs).1 ys).1;
          total_len = n;
        } in
        r)
      (omega (arith, length-append xs ys)))

-- From a buffer that is not full, hashing one slice after another is hashing their
-- concatenation.
pub update-append :
    (s : Sha256) (xs ys : Bytes)
    → length s.buffer < 64
    → update (update s xs) ys ≡ update s (xs ++ ys)
update-append s xs ys room =
    ap (λ t. update t ys) (update_lem s xs room)
    ∙ update_lem (state_of s xs) ys (feed_room s.state s.buffer xs room)
    ∙ state_of-append s xs ys
    ∙ sym (update_lem s (xs ++ ys) room)
