-- ===== src/Event.antt =====
-- src/event.rs: events before and after they are persisted.
use minisqlite.Base.{ℕ, ℤ, Bytes, Option, none, []}
use minisqlite.Id.{Id128}

pub record Event : Type 0 where
  pub event_id : Id128
  pub stream_id : Bytes
  pub event_type : Bytes
  pub schema_version : ℕ
  pub occurred_at_ms : ℤ
  pub causation_id : Option Id128
  pub correlation_id : Option Id128
  pub payload : Bytes
  pub metadata : Bytes

pub record PersistedEvent : Type 0 where
  pub transaction_id : Id128
  pub global_sequence : ℕ
  pub stream_version : ℕ
  pub event : Event

-- `Event::with_json_payload`.
unfoldable pub with_json_payload : Id128 → Bytes → Bytes → ℤ → Bytes → Event
with_json_payload event_id stream_id event_type occurred_at_ms payload = record {
  event_id = event_id;
  stream_id = stream_id;
  event_type = event_type;
  schema_version = 1;
  occurred_at_ms = occurred_at_ms;
  causation_id = none;
  correlation_id = none;
  payload = payload;
  metadata = [];
}
