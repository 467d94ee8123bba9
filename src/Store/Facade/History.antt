-- ===== src/Store/Facade/History.antt =====
-- Histories of the operations of `ControlPlaneStore` in src/store/mod.rs.
use minisqlite.Base.{
  ℕ, ℤ, ◌≤◌, refl, Bytes, Option, none, some, List, [], ◌∷◌, length, ltb, Bool, false, Bool-cases,
  inl, inr, arith, All, Result, ok, err, Ensures,
}
use minisqlite.Id.{Id128}
use minisqlite.Errors.{Error, StorageError, LeaseError}
use minisqlite.Jobs.{ClaimRequest, LeaseExtension, LeaseExtensionReceipt}
use minisqlite.Transaction.{CommitBatch}
use minisqlite.Store.Schema.{Db, Fate, busy, commits, unknown_kept, unknown_lost, settle}
use minisqlite.Store.Migrations.{File}
use minisqlite.Store.Jobs.Invariant.{JobsOk}
use minisqlite.Store.Jobs.Lease.{apply_extend_lease, finish_extension}
use minisqlite.Store.Jobs.Lease
use minisqlite.Store.Jobs.Extended.{apply_extend_lease-JobsOk}
use minisqlite.Store.Commit.Preserve.{WordSized, commit-JobsOk}
use minisqlite.Store.Commit.Exclusive.{Exclusive, Chain-Exclusive}
use minisqlite.Store.Claims.Claimed.{claim_jobs-JobsOk}
use minisqlite.Store.ReadPool.{ReadPool, pop, take, put}
use minisqlite.Store.Facade.{
  World, live, connection, failed, finish, run_on, on_writer, commit, recover_transaction,
  claim_jobs, extend_lease, recover_claim, read_with, with_reader,
}

finish_extension-JobsOk :
    (fate : Fate) (db : Db) (job_id : Id128) (m : Result (LeaseExtensionReceipt × Db) LeaseError)
    → JobsOk db
    → Ensures (λ (p : LeaseExtensionReceipt × Db). JobsOk p.1) m
    → JobsOk (finish_extension fate db job_id m).1
unfolding finish_extension settle
finish_extension-JobsOk busy db job_id (err e) h k = h
finish_extension-JobsOk busy db job_id (ok p) h k = h
finish_extension-JobsOk commits db job_id (err e) h k = h
finish_extension-JobsOk unknown_kept db job_id (err e) h k = h
finish_extension-JobsOk unknown_lost db job_id (err e) h k = h
finish_extension-JobsOk commits db job_id (ok (r, d)) h k = k.at (r, d) refl
finish_extension-JobsOk unknown_kept db job_id (ok (r, d)) h k = k.at (r, d) refl
finish_extension-JobsOk unknown_lost db job_id (ok (r, d)) h k = h

extend_lease-JobsOk :
    (fate : Fate) (db : Db) (x : LeaseExtension) (now : ℤ)
    → JobsOk db
    → JobsOk (Lease.extend_lease fate db x now).1
unfolding Lease.extend_lease
extend_lease-JobsOk fate db x now h =
    finish_extension-JobsOk fate db x.job_id (apply_extend_lease db x now) h
      (apply_extend_lease-JobsOk h x now)

module _ {Connection : Type 0} where
  -- One step of a store; the choices are those of the caller and of the system. A reader takes
  -- its connection from the pool and puts it back under the pool's lock, so that other steps may
  -- come between the two: `reading` is a whole read, `taking` and `putting` are its ends.
  pub data Step (w : World Connection) : World Connection → Type 1 where
    committing :
        (opened : Result Connection StorageError) (fate : Fate) (batch : CommitBatch)
        → All WordSized batch.operations
        → Step w (commit opened fate batch w).1
    claiming :
        (opened : Result Connection StorageError) (fate : Fate) (entropy : ℕ → Option Bytes)
        (request : ClaimRequest)
        → Step w (claim_jobs opened fate entropy request w).1
    extending :
        (opened : Result Connection StorageError) (fate : Fate) (x : LeaseExtension) (now : ℤ)
        → Step w (extend_lease opened fate x now w).1
    recovering :
        (opened : Result Connection StorageError) (transaction_id : Id128)
        → Step w (recover_transaction opened transaction_id w).1
    recovering_claim :
        (opened : Result Connection StorageError) (transaction_id : Id128) (now : ℤ)
        → Step w (recover_claim opened transaction_id now w).1
    reading :
        {A : Type 0} (opened : Result Connection StorageError) (f : File Db → Result A Error)
        → Step w (with_reader opened f w).1
    taking :
        (opened : Result Connection StorageError)
        → Step w (record w { store = record w.store { readers = (take opened w.store.readers).1 } })
    putting :
        (c : Connection)
        → Step w (record w { store = record w.store { readers = put c w.store.readers } })

  pub data History (w : World Connection) : World Connection → Type 1 where
    here : History w w
    next : {v u : World Connection} → History w v → Step v u → History w u

  -- The tables meet the invariant, and the pool keeps no more connections than it may.
  pub record Sound (w : World Connection) : Type 0 where
    pub jobs : JobsOk w.file.schema
    pub idle : length w.store.readers.idle ≤ w.store.readers.max_idle

  finish-Sound :
      {A : Type 0} {E : Type 0} (unknown : E → Bool) (w : World Connection) (p : Result A E × Db)
      → Sound w
      → JobsOk p.1
      → Sound (finish unknown w p).1
  unfolding finish
  finish-Sound unknown w p h k = elim (Bool-cases (failed unknown p.0)) [
    | inl e ↦ rw e (record { jobs = k; idle = h.idle })
    | inr e ↦ rw e (record { jobs = k; idle = h.idle })
  ]

  run_on-Sound :
      {A : Type 0} {E : Type 0} (storage : StorageError → E) (unknown : E → Bool)
      (run : World Connection → Result A E × Db) (opened : Result Connection StorageError)
      (o : Option Connection) (w : World Connection)
      → ((v : World Connection) → JobsOk v.file.schema → JobsOk (run v).1)
      → Sound w
      → Sound (run_on storage unknown run w (live o opened w)).1
  run_on-Sound storage unknown run opened (some c) w k h =
      finish-Sound unknown w (run w) h (k w h.jobs)
  run_on-Sound storage unknown run (ok c) none w k h =
      let v : World Connection = record w { store = record w.store { writer = some c } } in
      finish-Sound unknown v (run v) (record { jobs = h.jobs; idle = h.idle }) (k v h.jobs)
  run_on-Sound storage unknown run (err e) none w k h = h

  on_writer-Sound :
      {A : Type 0} {E : Type 0} (opened : Result Connection StorageError)
      (storage : StorageError → E) (unknown : E → Bool) (run : World Connection → Result A E × Db)
      (w : World Connection)
      → ((v : World Connection) → JobsOk v.file.schema → JobsOk (run v).1)
      → Sound w
      → Sound (on_writer opened storage unknown run w).1
  unfolding on_writer connection
  on_writer-Sound opened storage unknown run w k h =
      run_on-Sound storage unknown run opened w.store.writer w k h

  put_bound :
      (c : Connection) (pool : ReadPool Connection)
      → length pool.idle ≤ pool.max_idle
      → length (put c pool).idle ≤ (put c pool).max_idle
  unfolding put
  put_bound c pool h = elim (Bool-cases (ltb (length pool.idle) pool.max_idle)) [
    | inl e ↦ rw e (ground (arith, e))
    | inr e ↦ rw e h
  ]

  read-Sound :
      {A : Type 0} (opened : Result Connection StorageError) (f : File Db → Result A Error)
      (w : World Connection) (cs : List Connection)
      → length cs ≤ w.store.readers.max_idle
      → Sound w
      → Sound (read_with f w (pop opened w.store.readers cs)).1
  read-Sound (ok c) f w [] k h = record { jobs = h.jobs; idle = put_bound c w.store.readers h.idle }
  read-Sound (err e) f w [] k h = record { jobs = h.jobs; idle = h.idle }
  read-Sound opened f w (c ∷ cs) k h = record {
    jobs = h.jobs;
    idle = put_bound c (record w.store.readers { idle = cs }) (omega (arith, k));
  }

  take-Sound :
      (opened : Result Connection StorageError) (w : World Connection) (cs : List Connection)
      → length cs ≤ w.store.readers.max_idle
      → Sound w
      → Sound (record w { store = record w.store { readers = (pop opened w.store.readers cs).1 } })
  take-Sound (ok c) w [] k h = record { jobs = h.jobs; idle = h.idle }
  take-Sound (err e) w [] k h = record { jobs = h.jobs; idle = h.idle }
  take-Sound opened w (c ∷ cs) k h = record { jobs = h.jobs; idle = omega (arith, k) }

  Step-Sound : {w v : World Connection} → Step w v → Sound w → Sound v
  unfolding commit claim_jobs extend_lease recover_transaction recover_claim with_reader take
  Step-Sound {w} (committing opened fate batch words) h =
      on_writer-Sound opened _ _ _ w
        (λ v k. commit-JobsOk v.store.limits fate v.file.schema batch k words) h
  Step-Sound {w} (claiming opened fate entropy request) h =
      on_writer-Sound opened _ _ _ w (λ v k. claim_jobs-JobsOk fate entropy v.file.schema request k)
        h
  Step-Sound {w} (extending opened fate x now) h =
      on_writer-Sound opened _ _ _ w (λ v k. extend_lease-JobsOk fate v.file.schema x now k) h
  Step-Sound {w} (recovering opened transaction_id) h =
      on_writer-Sound opened _ (λ e. false) _ w (λ v k. k) h
  Step-Sound {w} (recovering_claim opened transaction_id now) h =
      on_writer-Sound opened _ (λ e. false) _ w (λ v k. k) h
  Step-Sound {w} (reading opened f) h = read-Sound opened f w w.store.readers.idle h.idle h
  Step-Sound {w} (taking opened) h = take-Sound opened w w.store.readers.idle h.idle h
  Step-Sound {w} (putting c) h = record { jobs = h.jobs; idle = put_bound c w.store.readers h.idle }

  History-Sound : {w v : World Connection} → History w v → Sound w → Sound v
  History-Sound here h = h
  History-Sound (next r s) h = Step-Sound s (History-Sound r h)

  -- From a store whose tables meet `JobsOk` and whose pool keeps at most its size, every
  -- history of commits of batches with 32-bit attempt limits, claims, lease extensions,
  -- recoveries and reads, whose taking and returning of a pooled connection may be steps of
  -- their own, whatever becomes of their transactions and of opening connections, leads to such
  -- a store again, and in its tables no two leased jobs share a queue and a partition.
  pub History-Exclusive :
      {w v : World Connection} → Sound w → History w v → Sound v × Exclusive v.file.schema.jobs
  History-Exclusive h r = let k = History-Sound r h in (k, Chain-Exclusive _ k.jobs.chain)
