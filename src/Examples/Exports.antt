-- ===== src/Examples/Exports.antt =====
-- Verification and exports of concrete tables.
use minisqlite.Base.{◌≡◌, refl, pos, ◌∷◌, [], utf8, concat, map, some, true, false, ok, All, arith}
use minisqlite.Store.Schema.{Db}
use minisqlite.Store.Checksum.{checksum}
use minisqlite.Store.Migrations.{Migration, File}
use minisqlite.Store.Ops.Text.{json_escape}
use minisqlite.Store.Ops.Escape.{plain, read_string, read_string-json_escape}
use minisqlite.Store.Ops.Verify.{VerifyReport, finding, verify}
use minisqlite.Store.Ops.Clean.{is_job_check, verify-JobsOk}
use minisqlite.Store.Ops.Export.{
  transaction_line, event_line, job_line, stream_line, export_streams, export_transactions,
  export_events, export_jobs, diagnostic_export,
}
use minisqlite.Store.Ops.Complete.{exports_every_row}
use minisqlite.Store.Ops.Redacted.{redact}
use minisqlite.Store.Ops.Secrecy.{diagnostic_export-redact}
use minisqlite.Examples.Data.{db, db-JobsOk}

abbrev first : Migration
first = record { version = 1; sql = utf8 "a" }

abbrev file : File Db
file = record {
  schema_migrations =
      some (record { version = 1; applied_at_ms = pos 3; checksum = checksum first.sql } ∷ []);
  schema = db;
}

-- The event of `db` has no row in `streams`.
abbrev report : VerifyReport
report =
    finding (utf8 "stream_versions") (utf8 "stream orders has events but no streams row" ∷ []) ∷ []

verify-JobsOk_example : All (λ f. is_job_check f ≡ false) report
unfolding verify minisqlite.Base.bytes_eq minisqlite.Sql.find_row checksum minisqlite.Sql.select
    minisqlite.Sql.exists_row
verify-JobsOk_example = verify-JobsOk (first ∷ []) (utf8 "ok" ∷ []) [] file report db-JobsOk refl

diagnostic_export-redact_example :
    diagnostic_export (ok 4096) (redact false file) false ≡ diagnostic_export (ok 4096) file false
diagnostic_export-redact_example = diagnostic_export-redact false (ok 4096) file

exports_every_row_example :
    (export_transactions db ≡ concat (map transaction_line db.transactions))
    × (export_events db true ≡ concat (map (event_line true) db.events))
    × (export_jobs db true ≡ concat (map (job_line true) db.jobs))
exports_every_row_example =
    exports_every_row db true (omega arith, tt) (omega arith, tt) (omega arith, (omega arith, tt))

read_string-json_escape_example :
    read_string plain (json_escape (1 ∷ b'"' ∷ b'\n' ∷ b'x' ∷ []))
    ≡ some (1 ∷ b'"' ∷ b'\n' ∷ b'x' ∷ [])
read_string-json_escape_example =
    read_string-json_escape (1 ∷ b'"' ∷ b'\n' ∷ b'x' ∷ [])
      (omega arith, (omega arith, (omega arith, (omega arith, tt))))

stream_line_text :
    stream_line (record { stream_id = utf8 "a\"b"; current_version = 3 })
    ≡ utf8 "{\"kind\":\"stream\",\"stream_id\":\"a\\\"b\",\"current_version\":3}\n"
unfolding stream_line minisqlite.Store.Ops.Paging.line
stream_line_text = refl

-- A stream with the empty name.
nameless_stream :
    export_streams (record db { streams = record { stream_id = []; current_version = 3 } ∷ [] })
    ≡ []
unfolding export_streams minisqlite.Sql.limit_rows minisqlite.Sql.order_by minisqlite.Sql.select
    minisqlite.Base.bytes_lt
nameless_stream = refl
