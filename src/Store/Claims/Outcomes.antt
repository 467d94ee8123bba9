-- ===== src/Store/Claims/Outcomes.antt =====
-- The outcomes of `claim_jobs` of src/store/jobs.rs, the tables after them, and what
-- `recover_claim` finds there.
use minisqlite.Base.{
  arith, ℕ, ℤ, ◌≡◌, refl, ◌==◌, Bytes, Bool, true, false, ◌&&◌, is_empty, List, [], ◌∷◌, length,
  Option, none, some, All, Ensures, Result, ok, err, map_err, ◌>>=◌, if◌then◌else◌, Bool-cases, inl,
  inr,
}
use minisqlite.Id.{Id128}
use minisqlite.Errors.{Error, StorageError, ClaimError, error_to_claim}
use minisqlite.Jobs.{ClaimRequest, ClaimOutcome, ClaimedJob, ClaimRecovery}
use minisqlite.Sql.{select, exists_row, order_by}
use minisqlite.Store.Schema.{
  Db, ReceiptRow, Fate, busy, commits, unknown_kept, unknown_lost, settle,
}
use minisqlite.Store.Jobs.Table.{has_transaction_id, ensure_transition}
use minisqlite.Store.Claims.Plan.{MaintenanceAction, Plan, plan_maintenance, plan_leases, new_id}
use minisqlite.Store.Claims.Recover.{receipts_of, recover_claim, join_jobs}
use minisqlite.Store.Claims.Durable.{WrittenNew, claim_transaction-WrittenNew}
use minisqlite.Store.Claims.Run.{
  Written, granted, check_request, maintain, apply_maintenance, grant_all, insert_claim_transaction,
  write_claim, claim_transaction, finish_claim, run_claim, claim_jobs,
}

-- The transaction that an outcome tells the caller of.
abbrev pub told : ClaimError → Option Id128
told (ClaimError.indeterminate t ids e) = some t
told _ = none

abbrev pub names : Result ClaimOutcome ClaimError → Option Id128
names (ok ClaimOutcome.noop) = none
names (ok (ClaimOutcome.maintenance_committed t)) = some t
names (ok (ClaimOutcome.committed c)) = some c.transaction_id
names (err e) = told e

abbrev pub is_absent : ClaimRecovery → Bool
is_absent ClaimRecovery.absent = true
is_absent _ = false

abbrev pub is_lost : Fate → Bool
is_lost unknown_lost = true
is_lost _ = false

-- What the tables hold after an outcome: for a transaction that it tells of, recovery finds it
-- unless it was lost; otherwise they are as they were.
abbrev pub Recovered : ℤ → Fate → Db → Option Id128 → Db → Type 0
Recovered now fate db none d = d ≡ db
Recovered now fate db (some t) d = is_absent (recover_claim d t now) ≡ is_lost fate

-- Every claim receipt is of a transaction that is there: the foreign key of `claim_receipts`.
abbrev pub ReceiptsOk : Db → Type 0
ReceiptsOk db =
    All (λ c. exists_row (has_transaction_id c.transaction_id) db.transactions ≡ true)
      db.claim_receipts

-- An error before COMMIT tells of no transaction.
Definite : {A : Type 0} → Result A ClaimError → Type 0
Definite (ok a) = Unit
Definite (err e) = told e ≡ none

module _ {A : Type 0} where
  Definite-bind :
      {B : Type 0} (m : Result A ClaimError) (k : A → Result B ClaimError)
      → Definite m
      → ((a : A) → Definite (k a))
      → Definite (m >>= k)
  unfolding Definite
  Definite-bind (ok a) k d h = h a
  Definite-bind (err e) k d h = d

  Definite-storage : (m : Result A StorageError) → Definite (map_err ClaimError.storage m)
  unfolding Definite
  Definite-storage (ok a) = tt
  Definite-storage (err e) = refl

  Definite-error : (m : Result A Error) → Definite (map_err error_to_claim m)
  unfolding Definite error_to_claim
  Definite-error (ok a) = tt
  Definite-error (err (Error.storage s)) = refl
  Definite-error (err (Error.validation v)) = refl
  Definite-error (err (Error.conflict c)) = refl

  Definite-if :
      (b : Bool) (a : A) (m : Result A ClaimError) → Definite m → Definite (if b then ok a else m)
  unfolding Definite
  Definite-if true a m h = tt
  Definite-if false a m h = h

apply_maintenance-Definite :
    (request : ClaimRequest) (t : Id128) (ms : List MaintenanceAction) (db : Db)
    → Definite (apply_maintenance db request t ms)
unfolding apply_maintenance Definite
apply_maintenance-Definite request t [] db = tt
apply_maintenance-Definite request t (a ∷ as') db =
    Definite-bind (map_err error_to_claim (ensure_transition a.job a.to)) _
      (Definite-error (ensure_transition a.job a.to))
      (λ _.
        Definite-bind (map_err ClaimError.storage (maintain db request t a.job a.to)) _
          (Definite-storage (maintain db request t a.job a.to))
          (apply_maintenance-Definite request t as'))

write_claim-Definite :
    (entropy : ℕ → Option Bytes) (db : Db) (request : ClaimRequest) (expiry : ℤ)
    (ms : List MaintenanceAction) (plan : Plan)
    → Definite (write_claim entropy db request expiry ms plan)
unfolding write_claim Definite
write_claim-Definite entropy db request expiry ms (ls, o) =
    Definite-if (is_empty ms && is_empty ls) none _ (
      Definite-bind (map_err error_to_claim (new_id (entropy (length ls)))) _
        (Definite-error (new_id (entropy (length ls))))
        (λ t.
          Definite-bind (map_err ClaimError.storage (insert_claim_transaction db t request _)) _
            (Definite-storage (insert_claim_transaction db t request _))
            (λ d₁.
              Definite-bind (apply_maintenance d₁ request t ms) _
                (apply_maintenance-Definite request t ms d₁)
                (λ d₂.
                  Definite-bind (map_err ClaimError.storage (grant_all d₂ request expiry t ls)) _
                    (Definite-storage (grant_all d₂ request expiry t ls)) (λ d₃. tt)))))

claim_transaction-Definite :
    (entropy : ℕ → Option Bytes) (db : Db) (request : ClaimRequest) (expiry : ℤ)
    → Definite (claim_transaction entropy db request expiry)
unfolding claim_transaction
claim_transaction-Definite entropy db request expiry =
    Definite-bind (map_err error_to_claim (plan_leases entropy db request)) _
      (Definite-error (plan_leases entropy db request))
      (write_claim-Definite entropy db request expiry (plan_maintenance db request))

check_request-Definite : (request : ClaimRequest) → Definite (check_request request)
unfolding check_request Definite
check_request-Definite request = ground arith

found :
    (d : Db) (t : Id128) (now : ℤ)
    → exists_row (has_transaction_id t) d.transactions ≡ true
    → is_absent (recover_claim d t now) ≡ false
unfolding recover_claim
found d t now e = ground (arith, e)

-- A transaction that is not there has no receipts.
no_receipts :
    (db : Db) (t : Id128) (cs : List ReceiptRow)
    → All (λ c. exists_row (has_transaction_id c.transaction_id) db.transactions ≡ true) cs
    → exists_row (has_transaction_id t) db.transactions ≡ false
    → select (λ c. c.transaction_id == t) cs ≡ []
unfolding select
no_receipts db t [] h e = refl
no_receipts db t (c ∷ cs) h e = elim (Bool-cases (c.transaction_id == t)) [
  | inl b ↦ ground (arith, b, h, e)
  | inr b ↦ rw b (no_receipts db t cs h.1 e)
]

missing :
    (db : Db) (t : Id128) (now : ℤ)
    → ReceiptsOk db
    → exists_row (has_transaction_id t) db.transactions ≡ false
    → is_absent (recover_claim db t now) ≡ true
unfolding recover_claim receipts_of join_jobs order_by
missing db t now h e = rw (no_receipts db t db.claim_receipts h e, e) refl

names-granted : (t : Id128) (jobs : List ClaimedJob) → names (ok (granted t jobs)) ≡ some t
unfolding granted
names-granted t [] = refl
names-granted t (j ∷ js) = refl

module _ (now : ℤ) (db : Db) where
  finish_claim-Recovered :
      (fate : Fate) (w : Result Written ClaimError)
      → ReceiptsOk db
      → Definite w
      → Ensures (WrittenNew db) w
      → Recovered now fate db (names (finish_claim fate db w).0) (finish_claim fate db w).1
  unfolding finish_claim settle Definite
  finish_claim-Recovered busy w h d n = refl
  finish_claim-Recovered commits (err e) h d n = rw d refl
  finish_claim-Recovered unknown_kept (err e) h d n = rw d refl
  finish_claim-Recovered unknown_lost (err e) h d n = rw d refl
  finish_claim-Recovered commits (ok none) h d n = refl
  finish_claim-Recovered unknown_kept (ok none) h d n = refl
  finish_claim-Recovered unknown_lost (ok none) h d n = refl
  finish_claim-Recovered commits (ok (some (t, jobs, d'))) h d n =
      rw (names-granted t jobs) (found d' t now (n.at (some (t, jobs, d')) refl).1)
  finish_claim-Recovered unknown_kept (ok (some (t, jobs, d'))) h d n =
      found d' t now (n.at (some (t, jobs, d')) refl).1
  finish_claim-Recovered unknown_lost (ok (some (t, jobs, d'))) h d n =
      missing db t now h (n.at (some (t, jobs, d')) refl).0

  run_claim-Recovered :
      (fate : Fate) (entropy : ℕ → Option Bytes) (request : ClaimRequest) (c : Result ℤ ClaimError)
      → ReceiptsOk db
      → Definite c
      → Recovered now fate db
          (names (run_claim fate entropy db request c).0)
          (run_claim fate entropy db request c).1
  unfolding run_claim Definite
  run_claim-Recovered fate entropy request (err e) h d = rw d refl
  run_claim-Recovered fate entropy request (ok expiry) h d =
      finish_claim-Recovered fate (claim_transaction entropy db request expiry) h
        (claim_transaction-Definite entropy db request expiry)
        (claim_transaction-WrittenNew db request entropy expiry)

-- When every claim receipt is of a transaction that is there: if an outcome of `claim_jobs`,
-- success or error, names a transaction, then `recover_claim` finds that transaction in the
-- tables unless its data was lost in COMMIT, and finds nothing if it was; if the outcome names
-- none, the tables are as they were.
pub claim_jobs-Recovered :
    (now : ℤ) (fate : Fate) (entropy : ℕ → Option Bytes) (db : Db) (request : ClaimRequest)
    → ReceiptsOk db
    → Recovered now fate db
        (names (claim_jobs fate entropy db request).0)
        (claim_jobs fate entropy db request).1
unfolding claim_jobs
claim_jobs-Recovered now fate entropy db request h =
    run_claim-Recovered now db fate entropy request (check_request request) h
      (check_request-Definite request)
