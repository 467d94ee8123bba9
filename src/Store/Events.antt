-- ===== src/Store/Events.antt =====
-- src/store/events.rs: the event log.
pub mod Cursor
pub mod Pages
use minisqlite.Base.{
  ℕ, ◌+◌, ◌^◌, Bytes, bytes_eq, List, [], ◌∷◌, ◌++◌, reverse, Option, Bool, ◌==◌, ◌&&◌, leb, ltb,
  ltb_ℤ, leb_ℤ, pos, as_i64, unwrap_or, Result, ok, err, reject_if, guard, ◌>>=◌, ◌>>◌,
}
use mathlib.Core.Option
use minisqlite.Id.{Id128}
use minisqlite.Sql.{select, find_row, exists_row, order_by, limit_rows, max_of}
use minisqlite.Errors.{StorageError, sqlite, unique_violation, foreign_key_violation}
use minisqlite.Event.{Event, PersistedEvent}
use minisqlite.Store.Schema.{Db}
use minisqlite.Store.Jobs.Table.{has_transaction_id}

-- AUTOINCREMENT: one more than the largest sequence so far, since events are never deleted.
unfoldable pub next_global_sequence : Db → ℕ
next_global_sequence db = max_of (λ e. e.global_sequence) db.events + 1

abbrev pub has_event_id : Id128 → PersistedEvent → Bool
has_event_id event_id e = e.event.event_id == event_id

abbrev pub at_version : Bytes → ℕ → PersistedEvent → Bool
at_version stream_id version e = bytes_eq e.event.stream_id stream_id && e.stream_version == version

unfoldable pub insert_event : Db → Id128 → Event → ℕ → Result Db StorageError
unfolding next_global_sequence
insert_event db transaction_id event stream_version = do
  reject_if (exists_row (has_event_id event.event_id) db.events) (sqlite unique_violation)
  reject_if (exists_row (at_version event.stream_id stream_version) db.events)
      (sqlite unique_violation)
  guard (exists_row (has_transaction_id transaction_id) db.transactions)
      (sqlite foreign_key_violation)
  ok (record db {
    events =
        db.events
        ++ record {
          transaction_id = transaction_id;
          global_sequence = next_global_sequence db;
          stream_version = stream_version;
          event = event;
        }
          ∷ [];
  })

abbrev pub by_global_sequence : PersistedEvent → PersistedEvent → Bool
by_global_sequence a b = leb a.global_sequence b.global_sequence

abbrev pub by_stream_version : PersistedEvent → PersistedEvent → Bool
by_stream_version a b = leb a.stream_version b.stream_version

-- `global_sequence > ?1`, with `after as i64`.
unfoldable pub events_after : Db → ℕ → ℕ → List PersistedEvent
events_after db after limit = limit_rows (as_i64 limit) (
    order_by by_global_sequence
      (select (λ e. ltb_ℤ (as_i64 after) (pos e.global_sequence)) db.events))

unfoldable pub stream_events : Db → Bytes → ℕ → ℕ → List PersistedEvent
stream_events db stream_id from_version limit = limit_rows (as_i64 limit) (
    order_by by_stream_version (
      select
        (λ e.
          bytes_eq e.event.stream_id stream_id
          && leb_ℤ (as_i64 from_version) (pos e.stream_version))
        db.events))

-- `ORDER BY global_sequence DESC LIMIT ?1`, reversed.
unfoldable pub last_events : Db → ℕ → List PersistedEvent
last_events db limit =
    reverse (limit_rows (as_i64 limit) (order_by (λ a b. by_global_sequence b a) db.events))

unfoldable pub get_event : Db → Id128 → Option PersistedEvent
get_event db event_id = find_row (has_event_id event_id) db.events

unfoldable pub stream_version : Db → Bytes → ℕ
stream_version db stream_id =
    unwrap_or
      (Option.map (λ s. s.current_version)
        (find_row (λ s. bytes_eq s.stream_id stream_id) db.streams))
      0
