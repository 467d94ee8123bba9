-- ===== src/Store/Facade/Reads.antt =====
-- The read operations of `ControlPlaneStore` in src/store/mod.rs.
use minisqlite.Base.{ℕ, Bytes, List, Option, Bool, Result, ok, map_err}
use minisqlite.Id.{Id128}
use minisqlite.Errors.{Error, StorageError}
use minisqlite.Event.{PersistedEvent}
use minisqlite.Projection.{ProjectionEntry}
use minisqlite.Jobs.{JobInfo}
use minisqlite.Jobs.State.{JobState}
use minisqlite.Store.Schema.{Db}
use minisqlite.Store.Events
use minisqlite.Store.Projections
use minisqlite.Store.Jobs
use minisqlite.Store.Ops
use minisqlite.Store.Ops.Verify.{VerifyReport, ForeignKeyRow}
use minisqlite.Store.Ops.Stats.{StoreStats}
use minisqlite.Store.Migrations
use minisqlite.Store.Migrations.{Migration, MigrationStatus, File}
use minisqlite.Store.Facade.{World, with_reader}

module _ {Connection : Type 0} (opened : Result Connection StorageError) where
  -- What every read returns: its result, and the store with its pool of connections.
  abbrev pub Read : Type 0 → Type 0
  Read A = World Connection → Result A Error × World Connection

  abbrev pub read : {A : Type 0} → (Db → A) → Read A
  read f w = with_reader opened (λ file. ok (f file.schema)) w

  unfoldable pub events_after : ℕ → ℕ → Read (List PersistedEvent)
  events_after after limit = read (λ db. Events.events_after db after limit)

  unfoldable pub last_events : ℕ → Read (List PersistedEvent)
  last_events limit = read (λ db. Events.last_events db limit)

  unfoldable pub stream_events : Bytes → ℕ → ℕ → Read (List PersistedEvent)
  stream_events stream_id from_version limit =
      read (λ db. Events.stream_events db stream_id from_version limit)

  unfoldable pub get_event : Id128 → Read (Option PersistedEvent)
  get_event event_id = read (λ db. Events.get_event db event_id)

  unfoldable pub stream_version : Bytes → Read ℕ
  stream_version stream_id = read (λ db. Events.stream_version db stream_id)

  unfoldable pub projection_version : Bytes → Read ℕ
  projection_version projection = read (λ db. Projections.version_query db projection)

  unfoldable pub projection_get : Bytes → Bytes → Read (Option Bytes)
  projection_get projection key = read (λ db. Projections.projection_get db projection key)

  unfoldable pub projection_scan_prefix : Bytes → Bytes → ℕ → Read (List ProjectionEntry)
  projection_scan_prefix projection prefix limit =
      read (λ db. Projections.projection_scan_prefix db projection prefix limit)

  unfoldable pub projection_scan_prefix_page :
      Bytes → Bytes → Option Bytes → ℕ → Read (List ProjectionEntry)
  projection_scan_prefix_page projection prefix after limit =
      read (λ db. Projections.projection_scan_prefix_page db projection prefix after limit)

  unfoldable pub projection_scan_range :
      Bytes → Option Bytes → Option Bytes → Option Bytes → ℕ → Read (List ProjectionEntry)
  projection_scan_range projection start end after limit =
      read (λ db. Projections.projection_scan_range db projection start end after limit)

  unfoldable pub projections_list : Read (List (Bytes × ℕ))
  projections_list = read Projections.projections_list

  unfoldable pub projection_entry_count : Bytes → Read ℕ
  projection_entry_count projection = read (λ db. Projections.projection_entry_count db projection)

  unfoldable pub job : Id128 → Read (Option JobInfo)
  job job_id = read (λ db. Jobs.Read.get_job db job_id)

  unfoldable pub jobs : Option Bytes → Option JobState → ℕ → Read (List JobInfo)
  jobs queue state limit = read (λ db. Jobs.Read.list_jobs db queue state limit)

  unfoldable pub jobs_page : Option Bytes → Option JobState → ℕ → ℕ → Read (List JobInfo × ℕ)
  jobs_page queue state after_sequence limit =
      with_reader opened
        (λ file. Jobs.Read.list_jobs_page file.schema queue state after_sequence limit)

  unfoldable pub verify : List Migration → List Bytes → List ForeignKeyRow → Read VerifyReport
  verify migrations integrity foreign_keys =
      with_reader opened (Ops.Verify.verify migrations integrity foreign_keys)

  unfoldable pub stats : Result ℕ StorageError → Read StoreStats
  stats file_size = with_reader opened (Ops.Stats.stats file_size)

  unfoldable pub diagnostic_export_with : Result ℕ StorageError → Bool → Read Bytes
  diagnostic_export_with file_size include_payloads =
      with_reader opened (λ file. Ops.Export.diagnostic_export file_size file include_payloads)

  unfoldable pub diagnostic_export : Result ℕ StorageError → Read Bytes
  unfolding diagnostic_export_with
  diagnostic_export file_size = diagnostic_export_with file_size Bool.false

  unfoldable pub migrations_status : List Migration → Read (List MigrationStatus)
  migrations_status migrations =
      with_reader opened (λ file. map_err Error.storage (Migrations.status migrations file))
