-- ===== src/Examples/Leases.antt =====
-- Job operations on concrete tables.
use minisqlite.Base.{
  ◌≡◌, ◌↔◌, refl, pos, [], ◌∷◌, none, some, ok, err, is_id, ltb_ℤ, leb_ℤ, unwrap_or, i64_min, true,
  false,
}
use minisqlite.Errors.{Error, job_transition}
use minisqlite.Jobs.{retry}
use minisqlite.Jobs.State.{JobState, leased, pending, succeeded, retry_wait, cancelled, is_leased}
use minisqlite.Sql.{find_row}
use minisqlite.Store.Schema.{Db, JobRow, check_row}
use minisqlite.Store.Jobs.Table.{load_job, to_terminal, to_nonterminal, drain_partition_if_empty}
use minisqlite.Store.Jobs.Ops.{apply_ack, apply_fail, apply_cancel, apply_resolve}
use minisqlite.Store.Jobs.Lease.{apply_extend_lease, with_expiry}
use minisqlite.Store.Jobs.Rows.{write_row}
use minisqlite.Store.Jobs.Rules.{apply_ack_iff}
use minisqlite.Store.Jobs.Refusals.{terminal_refuses, apply_resolve-leased}
use minisqlite.Store.Jobs.Extension.{apply_extend_lease-ok}
use minisqlite.Examples.Data.{db, db-JobsOk, leased_job, finished_job, queue, partition}

apply_ack_iff_example :
    (apply_ack db 51 (pos 20) (record { job_id = 7; lease_token = 77; result_digest = none })
      ≡ ok (
          drain_partition_if_empty queue partition
            (write_row (to_terminal succeeded (pos 20) 51 none none leased_job) db)))
    ↔ ((job : JobRow) × (load_job db 7 ≡ some job)
        × (job.state ≡ leased)
        × (is_id job.lease_token 77 ≡ true)
        × (drain_partition_if_empty queue partition
              (write_row (to_terminal succeeded (pos 20) 51 none none leased_job) db)
            ≡ drain_partition_if_empty job.queue job.partition_key
                (write_row (to_terminal succeeded (pos 20) 51 none none job) db)))
apply_ack_iff_example =
    apply_ack_iff db db-JobsOk 51 (pos 20)
      (record { job_id = 7; lease_token = 77; result_digest = none })
      (drain_partition_if_empty queue partition
        (write_row (to_terminal succeeded (pos 20) 51 none none leased_job) db))

apply_resolve-leased_example :
    apply_resolve db 51 (pos 20) (record { job_id = 7; resolution = retry })
    ≡ ok (write_row (to_nonterminal pending none 51 leased_job) db)
unfolding load_job find_row
apply_resolve-leased_example =
    apply_resolve-leased db leased_job 7 51 (pos 20) db-JobsOk refl refl refl

terminal_refuses_example :
    (apply_ack db 51 (pos 20) (record { job_id = 8; lease_token = 77; result_digest = none })
      ≡ err (Error.conflict (job_transition 8 succeeded succeeded)))
    × (apply_cancel db 51 (pos 20) (record { job_id = 8; lease_token = none })
        ≡ err (Error.conflict (job_transition 8 succeeded cancelled)))
    × (apply_fail db 51
          (pos 20)
          (record { job_id = 8; lease_token = 77; error_summary = []; retry_after_ms = none })
        ≡ err (Error.conflict (job_transition 8 succeeded retry_wait)))
    × ((to : JobState) × (apply_resolve db 51 (pos 20) (record { job_id = 8; resolution = retry })
          ≡ err (Error.conflict (job_transition 8 succeeded to))))
unfolding load_job find_row
terminal_refuses_example =
    terminal_refuses db finished_job 8 51 77 (pos 20) none none [] none retry refl refl

abbrev later : Db
later = record db {
  jobs = record leased_job { lease_expires_at_ms = some (pos 900) } ∷ finished_job ∷ [];
}

apply_extend_lease-ok_example :
    (job : JobRow) × (load_job db 7 ≡ some job)
    × (is_leased job.state ≡ true)
    × (is_id job.lease_token 77 ≡ true)
    × (ltb_ℤ (unwrap_or job.lease_expires_at_ms i64_min) (pos 20) ≡ false)
    × (leb_ℤ (pos 900) (unwrap_or job.lease_expires_at_ms i64_min) ≡ false)
    × (load_job later 7 ≡ some (with_expiry (pos 900) job))
unfolding apply_extend_lease find_row minisqlite.Sql.all_rows minisqlite.Sql.select check_row
    minisqlite.Sql.update
apply_extend_lease-ok_example =
    apply_extend_lease-ok db later
      (record { job_id = 7; lease_token = 77; new_expiry_ms = pos 900 }) (pos 20)
      (record { job_id = 7; attempt = 1; lease_expires_at_ms = pos 900 }) db-JobsOk refl
