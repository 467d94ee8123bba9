-- ===== src/Examples/Codes.antt =====
-- Codes, hashes and scans at concrete bytes.
use minisqlite.Base.{
  pos, ◌≡◌, ◌^◌, ◌+◌, ◌++◌, ◌↔◌, refl, [], ◌∷◌, ◌&&◌, some, true, false, ok, arith, ltb, map,
  as_i64, utf8, bytes_le,
}
use minisqlite.Id.{to_hex, from_hex}
use minisqlite.Id.Hex.{from_hex-to_hex}
use minisqlite.Jobs.State.{
  JobState, leased, uncertain, encode, decode, is_terminal, can_transition_to,
}
use minisqlite.Jobs.Transitions.{decode_iff, is_terminal_iff}
use minisqlite.Sha256.{new, update, sha256}
use minisqlite.Sha256.Update.{update-append}
use minisqlite.Sql.{select, order_by, limit_rows}
use minisqlite.Store.Events.{events_after, by_global_sequence}
use minisqlite.Store.Events.Cursor.{events_after-wraps}
use minisqlite.Store.Events.Pages.{events_after-events_after}
use minisqlite.Store.Projections.{projection_scan_prefix, in_projection, entry_of}
use minisqlite.Store.Projections.Scan.{starts_with, projection_scan_prefix-starts_with}
use minisqlite.Store.Projections.{version_query, apply_projection_patch}
use minisqlite.Store.Projections.Version.{apply_projection_patch-version}
use minisqlite.Examples.Data.{db, two_events, patch, patched}

from_hex-to_hex_example : from_hex (to_hex 48879) ≡ ok 48879
from_hex-to_hex_example = from_hex-to_hex 48879 (omega arith)

decode_iff_example : (decode (pos 3) ≡ some uncertain) ↔ (pos (encode uncertain) ≡ pos 3)
decode_iff_example = decode_iff (pos 3) uncertain

is_terminal_iff_example :
    (is_terminal leased ≡ true) ↔ ((t : JobState) → can_transition_to leased t ≡ false)
is_terminal_iff_example = is_terminal_iff leased

update-append_example : update (update new (1 ∷ 2 ∷ [])) (3 ∷ []) ≡ update new (1 ∷ 2 ∷ 3 ∷ [])
unfolding new
update-append_example = update-append new (1 ∷ 2 ∷ []) (3 ∷ []) (omega arith)

sha256_abc :
    sha256 (utf8 "abc")
    ≡ 0xba ∷ 0x78 ∷ 0x16 ∷ 0xbf ∷ 0x8f ∷ 0x01 ∷ 0xcf ∷ 0xea ∷ 0x41 ∷ 0x41 ∷ 0x40 ∷ 0xde ∷ 0x5d
      ∷ 0xae ∷ 0x22 ∷ 0x23 ∷ 0xb0 ∷ 0x03 ∷ 0x61 ∷ 0xa3 ∷ 0x96 ∷ 0x17 ∷ 0x7a ∷ 0x9c ∷ 0xb4 ∷ 0x10
      ∷ 0xff ∷ 0x61 ∷ 0xf2 ∷ 0x00 ∷ 0x15 ∷ 0xad ∷ []
unfolding sha256 minisqlite.Sha256.Compress.words_bytes minisqlite.Sha256.Compress.compress
    minisqlite.Id.from_be_bytes
sha256_abc = refl

events_after-events_after_example :
    events_after two_events 0 (1 + 1) ≡ events_after two_events 0 1 ++ events_after two_events 1 1
unfolding events_after select minisqlite.Sql.order_by limit_rows as_i64
events_after-events_after_example =
    events_after-events_after two_events 0 1 1 (omega arith, (omega arith, tt))
      (omega arith, (omega arith, tt)) (omega arith) (omega arith)

events_after-wraps_example :
    events_after db (2 ^ 63) 10 ≡ limit_rows (as_i64 10) (order_by by_global_sequence db.events)
events_after-wraps_example = events_after-wraps db (2 ^ 63) 10 (omega arith)

projection_scan_prefix-starts_with_example :
    projection_scan_prefix db (utf8 "totals") (utf8 "eu") 5
    ≡ map entry_of (
        limit_rows (as_i64 5) (
          order_by
            (λ a b. bytes_le a.key b.key)
            (select
              (λ e. in_projection (utf8 "totals") e && starts_with (utf8 "eu") e.key)
              db.projection_entries)))
projection_scan_prefix-starts_with_example =
    projection_scan_prefix-starts_with db (utf8 "totals") (utf8 "eu") 5
      (omega arith, (omega arith, tt))
      (
        (omega arith, (omega arith, (omega arith, (omega arith, tt)))),
        ((omega arith, (omega arith, (omega arith, (omega arith, tt)))), tt),
      )

apply_projection_patch-version_example :
    (version_query db (utf8 "totals") ≡ 1) × (version_query patched (utf8 "totals") ≡ 2)
unfolding apply_projection_patch minisqlite.Projection.validate minisqlite.Base.bytes_eq
    minisqlite.Sql.find_row minisqlite.Sql.exists_row minisqlite.Sql.upsert minisqlite.Sql.delete
apply_projection_patch-version_example = apply_projection_patch-version db patched patch refl
