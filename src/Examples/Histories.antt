-- ===== src/Examples/Histories.antt =====
-- A short history of a store.
use minisqlite.Errors.{StorageError}
use minisqlite.Base.{ℕ, Result, pos, ok, none, utf8, arith}
use minisqlite.Jobs.{LeaseExtension}
use minisqlite.Store.Schema.{commits, unknown_kept}
use minisqlite.Store.Commit.Exclusive.{Exclusive}
use minisqlite.Store.Commit
use minisqlite.Store.Claims
use minisqlite.Store.Facade.{World, new_builder, store_of, commit, claim_jobs}
use minisqlite.Store.Facade.History.{Sound, here, next, committing, claiming, History-Exclusive}
use minisqlite.Examples.Data.{db, db-JobsOk, batch, request, draws}

-- A store whose writer is the connection 0.
abbrev start : World ℕ
start = record {
  store = store_of (new_builder (utf8 "a.db")) 0;
  file = record { schema_migrations = none; schema = db };
}

abbrev reopens : Result ℕ StorageError
reopens = ok 1

-- The outcome of the COMMIT is unknown, though the data is durable.
abbrev unsure : World ℕ
unsure = (commit (ok 1) unknown_kept batch start).1

abbrev claimed : World ℕ
claimed = (claim_jobs (ok 1) commits draws request unsure).1

abbrev extension : LeaseExtension
extension = record { job_id = 7; lease_token = 77; new_expiry_ms = pos 600 }

start-Sound : Sound start
unfolding new_builder minisqlite.Store.ReadPool.new
start-Sound = record { jobs = db-JobsOk; idle = omega arith }

History-Exclusive_example : Sound claimed × Exclusive claimed.file.schema.jobs
unfolding minisqlite.Store.Commit.Preserve.WordSized
History-Exclusive_example = History-Exclusive start-Sound (
    next (next here (committing (ok 1) unknown_kept batch (tt, (omega arith, tt))))
      (claiming (ok 1) commits draws request))
