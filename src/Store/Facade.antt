-- ===== src/Store/Facade.antt =====
-- src/store/mod.rs: `StoreBuilder` and `ControlPlaneStore`. A connection is a handle of an
-- abstract type; the mutex of the writer makes each of its operations one step. What opening a
-- connection returns, if the operation opens one, is its first argument.
pub mod Reads
pub mod History
pub mod Discard
use minisqlite.Base.{
  ℕ, ℤ, Bytes, Option, none, some, Bool, true, false, List, if◌then◌else◌, Result, ok, err, map_err,
  ◌>>=◌,
}
use minisqlite.Id.{Id128}
use minisqlite.Config
use minisqlite.Config.{Durability, strict, Limits, default_limits}
use minisqlite.Errors.{Error, StorageError, CommitError, ClaimError, LeaseError, RecoveryError}
use minisqlite.Jobs.{
  ClaimRequest, ClaimOutcome, ClaimRecovery, LeaseExtension, LeaseExtensionReceipt,
}
use minisqlite.Transaction.{CommitBatch, CommitReceipt, TransactionRecovery}
use minisqlite.Store.Schema.{Db, Fate}
use minisqlite.Store.Migrations.{Migration, File, migrate, require_current}
use minisqlite.Store.ReadPool.{ReadPool, default_read_pool_size}
use minisqlite.Store.ReadPool
use minisqlite.Store.Commit
use minisqlite.Store.Claims
use minisqlite.Store.Jobs

pub record StoreBuilder : Type 0 where
  pub path : Bytes
  pub durability : Durability
  pub limits : Limits
  pub read_pool_size : ℕ

unfoldable pub new_builder : Bytes → StoreBuilder
new_builder path = record {
  path = path;
  durability = strict;
  limits = default_limits;
  read_pool_size = default_read_pool_size;
}

-- The setters of the builder.
unfoldable pub with_durability : Durability → StoreBuilder → StoreBuilder
with_durability d b = record b { durability = d }

unfoldable pub with_limits : Limits → StoreBuilder → StoreBuilder
with_limits l b = record b { limits = l }

unfoldable pub with_read_pool_size : ℕ → StoreBuilder → StoreBuilder
with_read_pool_size n b = record b { read_pool_size = n }

pub record ControlPlaneStore (Connection : Type 0) : Type 0 where
  pub writer : Option Connection
  pub readers : ReadPool Connection
  pub path : Bytes
  pub limits : Limits
  pub durability : Durability

-- The store and the file at its path.
pub record World (Connection : Type 0) : Type 0 where
  pub store : ControlPlaneStore Connection
  pub file : File Db

-- Whether the outcome of a COMMIT is unknown.
abbrev pub failed : {A : Type 0} {E : Type 0} → (E → Bool) → Result A E → Bool
failed is_indeterminate (ok a) = false
failed is_indeterminate (err e) = is_indeterminate e

abbrev pub commit_unknown : CommitError → Bool
commit_unknown (CommitError.indeterminate i s) = true
commit_unknown _ = false

abbrev pub claim_unknown : ClaimError → Bool
claim_unknown (ClaimError.indeterminate i js s) = true
claim_unknown _ = false

abbrev pub lease_unknown : LeaseError → Bool
lease_unknown (LeaseError.indeterminate i s) = true
lease_unknown _ = false

module _ {Connection : Type 0} where
  abbrev pub store_of : StoreBuilder → Connection → ControlPlaneStore Connection
  store_of b c = record {
    writer = some c;
    readers = ReadPool.new b.path b.read_pool_size;
    path = b.path;
    limits = b.limits;
    durability = b.durability;
  }

  -- The end of `open`, after `migrate`.
  abbrev pub opened_store :
      StoreBuilder
      → Connection
      → Result (Unit {0}) StorageError × File Db
      → Result (ControlPlaneStore Connection) Error × File Db
  opened_store b c (ok _, file) = (ok (store_of b c), file)
  opened_store b c (err e, file) = (err (Error.storage e), file)

  abbrev pub with_connection :
      Result Connection Error
      → File Db
      → (Connection → Result (ControlPlaneStore Connection) Error × File Db)
      → Result (ControlPlaneStore Connection) Error × File Db
  with_connection (ok c) file k = k c
  with_connection (err e) file k = (err e, file)

  -- `open`.
  unfoldable pub open_store :
      Result Connection StorageError
      → (Bytes → Db → Result Db StorageError)
      → (ℕ → Fate)
      → (ℕ → ℤ)
      → List Migration
      → File Db
      → StoreBuilder
      → Result (ControlPlaneStore Connection) Error × File Db
  unfolding migrate
  open_store opened execute_batch fate now migrations file b =
      with_connection
        (map_err Error.validation (Config.validate b.limits) >>= λ u. map_err Error.storage opened)
        file (λ c. opened_store b c (migrate execute_batch fate now migrations file))

  -- `open_existing` never writes.
  unfoldable pub open_existing :
      Result Connection StorageError
      → List Migration
      → File Db
      → StoreBuilder
      → Result (ControlPlaneStore Connection) Error
  unfolding require_current
  open_existing opened migrations file b = do
    u ← map_err Error.validation (Config.validate b.limits)
    c ← map_err Error.storage opened
    v ← map_err Error.storage (require_current migrations file)
    ok (store_of b c)

  abbrev pub live :
      Option Connection
      → Result Connection StorageError
      → World Connection
      → Result (World Connection) StorageError
  live (some c) opened w = ok w
  live none (ok c) w = ok (record w { store = record w.store { writer = some c } })
  live none (err e) w = err e

  -- `connection`: the live writer, opened again if it was discarded.
  unfoldable pub connection :
      Result Connection StorageError → World Connection → Result (World Connection) StorageError
  connection opened w = live w.store.writer opened w

  -- After the operation: an indeterminate outcome discards the writer.
  unfoldable pub finish :
      {A : Type 0}
      → {E : Type 0} → (E → Bool)
      → World Connection
      → Result A E × Db
      → Result A E × World Connection
  finish is_indeterminate w (result, db) = (
    result,
    record {
      store = if failed is_indeterminate result then record w.store { writer = none } else w.store;
      file = record w.file { schema = db };
    },
  )

  abbrev pub run_on :
      {A : Type 0}
      → {E : Type 0} → (StorageError → E)
      → (E → Bool)
      → (World Connection → Result A E × Db)
      → World Connection
      → Result (World Connection) StorageError
      → Result A E × World Connection
  run_on storage is_indeterminate run w (err e) = (err (storage e), w)
  run_on storage is_indeterminate run w (ok w') = finish is_indeterminate w' (run w')

  -- An operation on the writer.
  unfoldable pub on_writer :
      {A : Type 0}
      → {E : Type 0} → Result Connection StorageError
      → (StorageError → E)
      → (E → Bool)
      → (World Connection → Result A E × Db)
      → World Connection
      → Result A E × World Connection
  unfolding connection finish
  on_writer opened storage is_indeterminate run w =
      run_on storage is_indeterminate run w (connection opened w)

  unfoldable pub commit :
      Result Connection StorageError
      → Fate
      → CommitBatch
      → World Connection
      → Result CommitReceipt CommitError × World Connection
  unfolding on_writer
  commit opened fate batch w =
      on_writer opened CommitError.storage commit_unknown
        (λ w'. Commit.Run.commit w'.store.limits fate w'.file.schema batch) w

  unfoldable pub recover_transaction :
      Result Connection StorageError
      → Id128
      → World Connection
      → Result TransactionRecovery RecoveryError × World Connection
  unfolding on_writer
  recover_transaction opened transaction_id w =
      on_writer opened RecoveryError.storage (λ e. false)
        (λ w'. (ok (Commit.Run.recover_transaction w'.file.schema transaction_id), w'.file.schema))
        w

  unfoldable pub claim_jobs :
      Result Connection StorageError
      → Fate
      → (ℕ → Option Bytes)
      → ClaimRequest
      → World Connection
      → Result ClaimOutcome ClaimError × World Connection
  unfolding on_writer
  claim_jobs opened fate entropy request w =
      on_writer opened ClaimError.storage claim_unknown
        (λ w'. Claims.Run.claim_jobs fate entropy w'.file.schema request) w

  unfoldable pub extend_lease :
      Result Connection StorageError
      → Fate
      → LeaseExtension
      → ℤ
      → World Connection
      → Result LeaseExtensionReceipt LeaseError × World Connection
  unfolding on_writer
  extend_lease opened fate extension now_ms w =
      on_writer opened LeaseError.storage lease_unknown
        (λ w'. Jobs.Lease.extend_lease fate w'.file.schema extension now_ms) w

  unfoldable pub recover_claim :
      Result Connection StorageError
      → Id128
      → ℤ
      → World Connection
      → Result ClaimRecovery RecoveryError × World Connection
  unfolding on_writer
  recover_claim opened transaction_id now_ms w =
      on_writer opened RecoveryError.storage (λ e. false)
        (λ w'.
          (ok (Claims.Recover.recover_claim w'.file.schema transaction_id now_ms), w'.file.schema))
        w

  abbrev pub read_with :
      {A : Type 0}
      → (File Db → Result A Error)
      → World Connection
      → Result Connection StorageError × ReadPool Connection
      → Result A Error × World Connection
  read_with f w (err e, pool) =
      (err (Error.storage e), record w { store = record w.store { readers = pool } })
  read_with f w (ok c, pool) =
      (f w.file, record w { store = record w.store { readers = ReadPool.put c pool } })

  -- `with_reader`: a read on a connection of the pool, which gets it back, with no step of another
  -- thread between; the histories have its ends as steps too.
  unfoldable pub with_reader :
      {A : Type 0}
      → Result Connection StorageError
      → (File Db → Result A Error)
      → World Connection
      → Result A Error × World Connection
  with_reader opened f w = read_with f w (ReadPool.take opened w.store.readers)
