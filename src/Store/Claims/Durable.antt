-- ===== src/Store/Claims/Durable.antt =====
-- The transaction that an outcome of `claim_jobs` names, and what `recover_claim` of
-- src/store/jobs.rs finds of it.
use minisqlite.Base.{
  arith, ℕ, ℤ, ◌+◌, ◌≡◌, refl, ◌∙◌, ==_refl, Bytes, true, false, ◌&&◌, ◌==◌, List, [], ◌∷◌, ◌++◌,
  map, length, Option, none, some, is_empty, ok, map_err, ◌>>=◌, Ensures, Ensures-bind, Ensures-ok,
  Ensures-if, Ensures-guard, Ensures-reject_if, Ensures-map_err,
}
use minisqlite.Id.{Id128}
use minisqlite.Errors.{ClaimError, error_to_claim}
use minisqlite.Jobs.{ClaimRequest, ClaimedJob}
use minisqlite.Jobs.State.{
  JobState, pending, leased, retry_wait, uncertain, succeeded, dead, cancelled,
}
use minisqlite.Sql.{exists_row}
use minisqlite.Store.Schema.{Db, JobRow, TransactionRow, ReceiptRow}
use minisqlite.Store.Jobs.Table.{has_transaction_id, ensure_transition}
use minisqlite.Store.Jobs.Frame.{
  Same, bind-Same, update_job-Same, set_terminal-Same, set_nonterminal-Same,
}
use minisqlite.Store.Claims.Plan.{
  MaintenanceAction, ProposedLease, plan_maintenance, plan_leases, new_id,
}
use minisqlite.Store.Claims.Run.{
  Written, insert_transaction, insert_claim_transaction, expired_at_final,
  next_transaction_sequence, maintain, apply_maintenance, insert_receipt, grant, grant_all,
  move_cursor, claimed_of, write_claim, claim_transaction,
}

maintain-Same :
    (db : Db) (request : ClaimRequest) (t : Id128) (job : JobRow) (st : JobState)
    → Ensures (Same db) (maintain db request t job st)
unfolding maintain
maintain-Same db request t job pending = set_nonterminal-Same db job.job_id pending none t
maintain-Same db request t job leased = set_nonterminal-Same db job.job_id leased none t
maintain-Same db request t job retry_wait = set_nonterminal-Same db job.job_id retry_wait none t
maintain-Same db request t job uncertain = set_nonterminal-Same db job.job_id uncertain none t
maintain-Same db request t job succeeded = set_nonterminal-Same db job.job_id succeeded none t
maintain-Same db request t job dead =
    set_terminal-Same db job dead request.now_ms t none (some expired_at_final)
maintain-Same db request t job cancelled = set_nonterminal-Same db job.job_id cancelled none t

apply_maintenance-Same :
    (request : ClaimRequest) (t : Id128) (ms : List MaintenanceAction) (db : Db)
    → Ensures (Same db) (apply_maintenance db request t ms)
unfolding apply_maintenance
apply_maintenance-Same request t [] db = Ensures-ok _ _ refl refl
apply_maintenance-Same request t (a ∷ as') db =
    Ensures-bind (map_err error_to_claim (ensure_transition a.job a.to)) _ (λ _ _.
      bind-Same db (map_err ClaimError.storage (maintain db request t a.job a.to)) _
        (Ensures-map_err ClaimError.storage _ (maintain-Same db request t a.job a.to))
        (apply_maintenance-Same request t as'))

insert_receipt-Same : (db : Db) (row : ReceiptRow) → Ensures (Same db) (insert_receipt db row)
unfolding insert_receipt
insert_receipt-Same db row =
    Ensures-reject_if
      (exists_row (λ c. c.transaction_id == row.transaction_id && c.job_id == row.job_id)
        db.claim_receipts)
      _ _
      (λ _.
        Ensures-guard (exists_row (has_transaction_id row.transaction_id) db.transactions) _ _
          (λ _. Ensures-ok _ _ refl refl))

grant_all-Same :
    (request : ClaimRequest) (expiry : ℤ) (t : Id128) (ls : List ProposedLease) (db : Db)
    → Ensures (Same db) (grant_all db request expiry t ls)
unfolding grant_all grant
grant_all-Same request expiry t [] db = Ensures-ok _ _ refl refl
grant_all-Same request expiry t (l ∷ ls) db =
    bind-Same db (grant db request expiry t l) _
      (bind-Same db _ _ (update_job-Same l.job.job_id _ db) (λ d. insert_receipt-Same d _))
      (grant_all-Same request expiry t ls)

move_cursor-Same : (queue : Bytes) (o : Option Bytes) (db : Db) → Same db (move_cursor queue o db)
unfolding move_cursor
move_cursor-Same queue none db = refl
move_cursor-Same queue (some p) db = refl

-- The row of a claim's transaction is new.
abbrev pub New : Id128 → Db → Db → Type 0
New t db d =
    (exists_row (has_transaction_id t) db.transactions ≡ false)
    × (exists_row (has_transaction_id t) d.transactions ≡ true)

New-Same : (t : Id128) (db d e : Db) → Same d e → New t db d → New t db e
New-Same t db d e s n = rw s n

exists_row-last :
    (t : Id128) (ts : List TransactionRow) (r : TransactionRow)
    → r.transaction_id ≡ t
    → exists_row (has_transaction_id t) (ts ++ r ∷ []) ≡ true
unfolding exists_row
exists_row-last t [] r e = rw (e, ==_refl t) refl
exists_row-last t (x ∷ ts) r e = ground (arith, exists_row-last t ts r e)

insert_claim_transaction-New :
    (db : Db) (t : Id128) (request : ClaimRequest) (n : ℕ)
    → Ensures (New t db) (insert_claim_transaction db t request n)
unfolding insert_claim_transaction insert_transaction
insert_claim_transaction-New db t request n =
    Ensures-reject_if (exists_row (has_transaction_id t) db.transactions) _ _ (λ fresh.
      Ensures-reject_if
        (exists_row (λ x. x.transaction_sequence == next_transaction_sequence db) db.transactions) _
        _ (λ _. Ensures-ok _ _ refl (fresh, exists_row-last t db.transactions _ refl)))

-- What a claim has written, if anything, has the row of its transaction.
abbrev pub WrittenNew : Db → Written → Type 0
WrittenNew db none = Unit
WrittenNew db (some (t, jobs, d)) = New t db d

module _ (db : Db) (request : ClaimRequest) where
  written_new :
      (expiry : ℤ) (t : Id128) (n : ℕ) (ms : List MaintenanceAction) (ls : List ProposedLease)
      (o : Option Bytes) (jobs : List ClaimedJob)
      → Ensures (WrittenNew db) (
          map_err ClaimError.storage (insert_claim_transaction db t request n) >>= λ db₁.
          apply_maintenance db₁ request t ms >>= λ db₂.
          map_err ClaimError.storage (grant_all db₂ request expiry t ls) >>= λ db₃.
          ok (some (t, jobs, move_cursor request.queue o db₃)))
  written_new expiry t n ms ls o jobs =
      Ensures-bind (map_err ClaimError.storage (insert_claim_transaction db t request n)) _
        (λ d₁ e₁. Ensures-bind (apply_maintenance d₁ request t ms) _ (λ d₂ e₂.
          Ensures-bind (map_err ClaimError.storage (grant_all d₂ request expiry t ls)) _ (λ d₃ e₃.
            Ensures-ok _ _ refl (
              New-Same t db d₁ (move_cursor request.queue o d₃)
                (move_cursor-Same request.queue o d₃
                  ∙ (Ensures-map_err ClaimError.storage _
                        (grant_all-Same request expiry t ls d₂)).at
                      d₃ e₃
                  ∙ (apply_maintenance-Same request t ms d₁).at d₂ e₂)
                ((Ensures-map_err ClaimError.storage _
                    (insert_claim_transaction-New db t request n)).at
                  d₁ e₁)))))

  pub claim_transaction-WrittenNew :
      (entropy : ℕ → Option Bytes) (expiry : ℤ)
      → Ensures (WrittenNew db) (claim_transaction entropy db request expiry)
  unfolding claim_transaction write_claim
  claim_transaction-WrittenNew entropy expiry =
      Ensures-bind (map_err error_to_claim (plan_leases entropy db request)) _ (λ plan _.
        Ensures-if (is_empty (plan_maintenance db request) && is_empty plan.0) _ _
          (λ _. Ensures-ok _ _ refl tt)
          (λ _. Ensures-bind (map_err error_to_claim (new_id (entropy (length plan.0)))) _ (λ t _.
            written_new expiry t (length (plan_maintenance db request) + length plan.0)
              (plan_maintenance db request) plan.0 plan.1
              (map (claimed_of request expiry) plan.0))))
