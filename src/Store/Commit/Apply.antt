-- ===== src/Store/Commit/Apply.antt =====
-- The loops of `commit` in src/store/commit.rs over the expected versions and the operations.
use minisqlite.Base.{
  ℕ, ◌+◌, ◌^◌, Bytes, bytes_eq, List, [], ◌∷◌, Option, none, some, Bool, ltb, ◌==◌, not, Result, ok,
  err, map_err, reject_if, ◌>>=◌, ◌>>◌, ℤ,
}
use minisqlite.Id.{Id128}
use minisqlite.Sql.{find_row, upsert}
use minisqlite.Errors.{
  Error, CommitError, error_to_commit, lease_to_commit, stream_version, stream_overflow,
}
use minisqlite.Event.{Event}
use minisqlite.Transaction.{
  Operation, append_event, projection_patch, enqueue_job, ack_job, fail_job, cancel_job,
  resolve_job, extend_lease, ExpectedStreamVersion,
}
use minisqlite.Store.Schema.{Db, StreamRow}
use minisqlite.Store.Events
use minisqlite.Store.Events.{insert_event}
use minisqlite.Store.Projections.{apply_projection_patch}
use minisqlite.Store.Jobs.Ops.{apply_enqueue, apply_ack, apply_fail, apply_cancel, apply_resolve}
use minisqlite.Store.Jobs.Lease.{apply_extend_lease}

-- The map `stream_versions`, one row for each key. Its order is the order of insertion; the source's
-- hash map is only read by key and, at the end, written out with distinct keys.
abbrev pub Versions : Type 0
Versions = List StreamRow

abbrev pub is_stream : Bytes → StreamRow → Bool
is_stream s r = bytes_eq r.stream_id s

unfoldable pub set_stream : Bytes → ℕ → List StreamRow → List StreamRow
set_stream s v rows =
    upsert (is_stream s) (record { stream_id = s; current_version = v })
      (λ r. record r { current_version = v }) rows

unfoldable pub current_stream_version : Db → Bytes → ℕ
unfolding Events.stream_version
current_stream_version db stream_id = Events.stream_version db stream_id

-- The loop over `expected_stream_versions`.
unfoldable pub check_expected :
    Db → List ExpectedStreamVersion → Versions → Result Versions CommitError
unfolding current_stream_version set_stream
check_expected db [] versions = ok versions
check_expected db (e ∷ es) versions = do
  reject_if (not (current_stream_version db e.stream_id == e.version)) (
      CommitError.conflict
        (stream_version e.stream_id e.version (current_stream_version db e.stream_id)))
  check_expected db es (set_stream e.stream_id (current_stream_version db e.stream_id) versions)

abbrev pub version_or : Option StreamRow → ℕ → ℕ
version_or none v = v
version_or (some r) v = r.current_version

-- The version that the `match` on `stream_versions.get` yields; its `insert` on a miss is covered
-- by the `insert` of the next version, since an overflow ends the commit.
unfoldable pub known_version : Db → Versions → Bytes → ℕ
unfolding current_stream_version
known_version db versions stream_id =
    version_or (find_row (is_stream stream_id) versions) (current_stream_version db stream_id)

abbrev pub State : Type 0
State = Db × Versions

unfoldable pub append : Db → Versions → Id128 → Event → Result State CommitError
unfolding known_version insert_event set_stream
append db versions transaction_id event = do
  let next = known_version db versions event.stream_id + 1
  reject_if (not (ltb next (2 ^ 64))) (CommitError.validation (stream_overflow event.stream_id))
  db' ← map_err CommitError.storage (insert_event db transaction_id event next)
  ok (db', set_stream event.stream_id next versions)

abbrev pub keep_versions : Versions → Result Db Error → Result State CommitError
keep_versions versions (ok db) = ok (db, versions)
keep_versions versions (err e) = err (error_to_commit e)

abbrev pub keep_extension {ℓ} :
    {A : Type ℓ} {E : Type ℓ}
    → (E → CommitError)
    → Versions
    → Result (A × Db) E
    → Result (Db × Versions) CommitError
keep_extension f versions (ok (receipt, db)) = ok (db, versions)
keep_extension f versions (err e) = err (f e)

-- The arms of the `match operation`.
unfoldable pub apply_operation : Id128 → ℤ → Db → Versions → Operation → Result State CommitError
unfolding append
apply_operation t now db vs (append_event e) = append db vs t e
apply_operation t now db vs (projection_patch p) = keep_versions vs (apply_projection_patch db p)
apply_operation t now db vs (enqueue_job j) = keep_versions vs (apply_enqueue db t j)
apply_operation t now db vs (ack_job a) = keep_versions vs (apply_ack db t now a)
apply_operation t now db vs (fail_job f) = keep_versions vs (apply_fail db t now f)
apply_operation t now db vs (cancel_job c) = keep_versions vs (apply_cancel db t now c)
apply_operation t now db vs (resolve_job r) = keep_versions vs (apply_resolve db t now r)
apply_operation t now db vs (extend_lease e) =
    keep_extension lease_to_commit vs (apply_extend_lease db e now)

unfoldable pub apply_operations :
    Id128 → ℤ → Db → Versions → List Operation → Result State CommitError
unfolding apply_operation
apply_operations t now db vs [] = ok (db, vs)
apply_operations t now db vs (o ∷ os) =
    apply_operation t now db vs o >>= λ s. apply_operations t now s.0 s.1 os

-- The loop that writes `streams`.
unfoldable pub write_streams : Versions → Db → Db
unfolding set_stream
write_streams [] db = db
write_streams (r ∷ rs) db =
    write_streams rs (record db { streams = set_stream r.stream_id r.current_version db.streams })
