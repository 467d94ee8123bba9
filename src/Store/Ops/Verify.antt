-- ===== src/Store/Ops/Verify.antt =====
-- `verify` of src/store/ops.rs. What the integrity checks of SQLite report is an argument.
use minisqlite.Base.{
  ℕ, ℤ, Bytes, bytes_eq, utf8, List, [], ◌∷◌, ◌++◌, concat, map, Bool, not, ◌==◌, ◌&&◌, ◌||◌,
  is_some, is_none, is_empty, Option, none, some, Result, ok, map_err, ◌>>=◌, if◌then◌else◌,
}
use minisqlite.Id.{to_hex}
use minisqlite.Sql.{select, exists_row, max_of}
use minisqlite.Errors.{Error}
use minisqlite.Jobs.State.{is_terminal, is_leased}
use minisqlite.Store.Schema.{Db, JobRow, StreamRow, PartitionRow, ReceiptRow}
use minisqlite.Store.Jobs.Table.{active_in, has_job_id, has_transaction_id}
use minisqlite.Store.Claims.Run.{decimal}
use minisqlite.Store.Migrations.{Migration, MigrationStatus, File, status}
use minisqlite.Store.Ops.Text.{number}

pub record VerifyFinding : Type 0 where
  pub check : Bytes
  pub detail : Bytes

-- `VerifyReport`, and its `is_ok`.
abbrev pub VerifyReport : Type 0
VerifyReport = List VerifyFinding

abbrev pub is_ok : VerifyReport → Bool
is_ok findings = is_empty findings

abbrev pub finding : Bytes → List Bytes → VerifyFinding
finding check detail = record { check = check; detail = concat detail }

-- A row of `PRAGMA foreign_key_check`: table, rowid and parent.
abbrev pub ForeignKeyRow : Type 0
ForeignKeyRow = Bytes × Option ℤ × Bytes

unfoldable pub integrity_findings : List Bytes → List VerifyFinding
unfolding concat
integrity_findings [] = []
integrity_findings (row ∷ rows) =
    let rest = integrity_findings rows in
    if bytes_eq row (utf8 "ok") then rest else finding (utf8 "integrity_check") (row ∷ []) ∷ rest

abbrev pub rowid_text : Option ℤ → Bytes
rowid_text none = utf8 "?"
rowid_text (some r) = decimal r

unfoldable pub foreign_key_finding : ForeignKeyRow → VerifyFinding
unfolding concat decimal
foreign_key_finding (table, rowid, parent) = finding (utf8 "foreign_key_check") (
    utf8 "table "
    ∷ table
    ∷ utf8 " rowid "
    ∷ rowid_text rowid
    ∷ utf8 " references missing row in "
    ∷ parent
    ∷ [])

-- The two loops over the migrations differ by the name of the check.
unfoldable pub checksum_findings : Bytes → List MigrationStatus → List VerifyFinding
unfolding concat number
checksum_findings check [] = []
checksum_findings check (s ∷ ss) =
    let rest = checksum_findings check ss in
    if s.checksum_ok
    then rest
    else finding check (utf8 "migration " ∷ number s.version ∷ utf8 " checksum mismatch" ∷ [])
      ∷ rest

unfoldable pub migration_findings : List MigrationStatus → List VerifyFinding
unfolding checksum_findings concat
migration_findings statuses =
    (if is_empty statuses
      then finding (utf8 "migrations") (utf8 "no migrations applied" ∷ []) ∷ []
      else [])
    ++ checksum_findings (utf8 "migrations") statuses

-- `COALESCE(MAX(e.stream_version), 0)` of the events of a stream.
unfoldable pub max_event_version : Db → Bytes → ℕ
max_event_version db stream_id =
    max_of (λ e. e.stream_version) (select (λ e. bytes_eq e.event.stream_id stream_id) db.events)

unfoldable pub stream_finding : Db → StreamRow → VerifyFinding
unfolding max_event_version concat number
stream_finding db s = finding (utf8 "stream_versions") (
    utf8 "stream "
    ∷ s.stream_id
    ∷ utf8 " current_version "
    ∷ number s.current_version
    ∷ utf8 " != max event version "
    ∷ number (max_event_version db s.stream_id)
    ∷ [])

unfoldable pub is_stale_stream : Db → StreamRow → Bool
unfolding max_event_version
is_stale_stream db s = not (s.current_version == max_event_version db s.stream_id)

-- `SELECT DISTINCT`.
unfoldable pub distinct : List Bytes → List Bytes
distinct [] = []
distinct (b ∷ bs) = b ∷ select (λ c. not (bytes_eq c b)) (distinct bs)

unfoldable pub has_stream : Db → Bytes → Bool
has_stream db stream_id = exists_row (λ s. bytes_eq s.stream_id stream_id) db.streams

unfoldable pub orphan_finding : Bytes → VerifyFinding
unfolding concat
orphan_finding stream_id =
    finding (utf8 "stream_versions")
      (utf8 "stream " ∷ stream_id ∷ utf8 " has events but no streams row" ∷ [])

abbrev pub lease_left : JobRow → Bool
lease_left r =
    is_terminal r.state
    && (is_some r.lease_token || (is_some r.worker_id || is_some r.lease_expires_at_ms))

unfoldable pub terminal_finding : JobRow → VerifyFinding
unfolding concat
terminal_finding r =
    finding (utf8 "terminal_jobs")
      (utf8 "terminal job " ∷ to_hex r.job_id ∷ utf8 " still has lease fields" ∷ [])

abbrev pub is_idle : Db → PartitionRow → Bool
is_idle db p = not (exists_row (active_in p.queue p.partition_key) db.jobs)

unfoldable pub partition_finding : PartitionRow → VerifyFinding
unfolding concat
partition_finding p = finding (utf8 "active_partitions") (
    utf8 "partition "
    ∷ p.queue
    ∷ utf8 "/"
    ∷ p.partition_key
    ∷ utf8 " is active but has no nonterminal jobs"
    ∷ [])

abbrev pub lease_missing : JobRow → Bool
lease_missing r =
    is_leased r.state
    && (is_none r.lease_token || (is_none r.worker_id || is_none r.lease_expires_at_ms))

unfoldable pub leased_finding : JobRow → VerifyFinding
unfolding concat
leased_finding r =
    finding (utf8 "leased_jobs")
      (utf8 "leased job " ∷ to_hex r.job_id ∷ utf8 " is missing lease fields" ∷ [])

abbrev pub job_missing : Db → ReceiptRow → Bool
job_missing db c = not (exists_row (has_job_id c.job_id) db.jobs)

unfoldable pub job_missing_finding : ReceiptRow → VerifyFinding
unfolding concat
job_missing_finding c = finding (utf8 "claim_receipts") (
    utf8 "claim receipt in transaction "
    ∷ to_hex c.transaction_id
    ∷ utf8 " references missing job "
    ∷ to_hex c.job_id
    ∷ [])

abbrev pub transaction_missing : Db → ReceiptRow → Bool
transaction_missing db c = not (exists_row (has_transaction_id c.transaction_id) db.transactions)

unfoldable pub transaction_missing_finding : ReceiptRow → VerifyFinding
unfolding concat
transaction_missing_finding c = finding (utf8 "claim_receipts") (
    utf8 "claim receipt for job "
    ∷ to_hex c.job_id
    ∷ utf8 " references missing transaction "
    ∷ to_hex c.transaction_id
    ∷ [])

unfoldable pub semantic_checks : List MigrationStatus → Db → List VerifyFinding
unfolding is_stale_stream stream_finding distinct has_stream orphan_finding terminal_finding
    partition_finding leased_finding job_missing_finding transaction_missing_finding
semantic_checks statuses db =
    map (stream_finding db) (select (is_stale_stream db) db.streams)
    ++ (map orphan_finding (
          distinct (
            map (λ e. e.event.stream_id)
              (select (λ e. not (has_stream db e.event.stream_id)) db.events)))
        ++ (map terminal_finding (select lease_left db.jobs)
            ++ (map partition_finding (select (is_idle db) db.active_partitions)
                ++ (checksum_findings (utf8 "migration_checksums") statuses
                    ++ (map leased_finding (select lease_missing db.jobs)
                        ++ (map job_missing_finding (select (job_missing db) db.claim_receipts)
                            ++ map transaction_missing_finding
                                (select (transaction_missing db) db.claim_receipts)))))))

unfoldable pub verify :
    List Migration → List Bytes → List ForeignKeyRow → File Db → Result VerifyReport Error
unfolding integrity_findings foreign_key_finding migration_findings semantic_checks status
verify migrations integrity foreign_keys file =
    map_err Error.storage (status migrations file) >>= λ statuses. ok (
      integrity_findings integrity
      ++ (map foreign_key_finding foreign_keys
          ++ (migration_findings statuses ++ semantic_checks statuses file.schema)))
