-- ===== src/Store/Claims/Granting.antt =====
-- Granting the planned leases (the loop of `claim_jobs` in src/store/jobs.rs) and the job tables.
use minisqlite.Base.{
  ℕ, ℤ, ◌+◌, ◌%◌, ◌^◌, ◌≤◌, ◌<◌, ◌≡◌, refl, sym, ap, subst, ◌∙◌, true, false, ◌&&◌, ◌==◌, ==_iff,
  ltb, is_some, is_none, List, [], ◌∷◌, some, some-injective, All, All-mono, arith, Bool-cases, inl,
  inr, if◌then◌else◌, ok, ok-injective, Ensures, Ensures-bind, Ensures-ok, Ensures-reject_if,
  Ensures-guard,
}
use minisqlite.Id.{Id128}
use minisqlite.Sql.{exists_row}
use minisqlite.Sql.Rows.{find_row-exists}
use minisqlite.Jobs.{ClaimRequest}
use minisqlite.Jobs.State.{is_active}
use minisqlite.Store.Schema.{Db, JobRow, ReceiptRow, check_row}
use minisqlite.Store.Jobs.Table.{has_job_id, has_transaction_id, load_job, update_job}
use minisqlite.Store.Jobs.Rows.{put_row, find-put, write_row, update_job-write}
use minisqlite.Store.Jobs.Invariant.{RowOk, JobsOk, load_job-id, load_job-RowOk}
use minisqlite.Store.Jobs.Heads.{Stays, IsHead, IsHead-Stays, IsHead-put, lease-JobsOk}
use minisqlite.Store.Jobs.Preserve.{not_terminal_of}
use minisqlite.Store.Jobs.Settle.{found}
use minisqlite.Store.Commit.SameJobs.{SameJobs-JobsOk}
use minisqlite.Store.Claims.Plan.{ProposedLease}
use minisqlite.Store.Claims.Run.{
  to_leased, next_attempt, insert_receipt, receipt_of, grant, grant_all,
}

-- A planned lease that the loop may still grant: its job is a nonterminal head of its partition
-- with an attempt left. The job itself may have changed since it was planned.
pub record LeaseOk (db : Db) (l : ProposedLease) : Type 0 where
  pub row : JobRow
  pub found : load_job db l.job.job_id ≡ some row
  pub active : is_active row.state ≡ true
  pub head : IsHead db.jobs row
  pub left : l.job.attempt < row.max_attempts

-- One row was replaced.
pub record Wrote (db : Db) (r r' : JobRow) (db' : Db) : Type 0 where
  pub jobs : db'.jobs ≡ put_row r' db.jobs
  pub found : load_job db r'.job_id ≡ some r
  pub stays : Stays r r'
  pub active : is_active r.state ≡ true

module _ (db db' : Db) (r r' : JobRow) (w : Wrote db r r' db') where
  pub load_job-Wrote :
      (id : Id128) → load_job db' id ≡ (if id == r'.job_id then some r' else load_job db id)
  unfolding load_job
  load_job-Wrote id =
      let x : exists_row (has_job_id r'.job_id) db.jobs ≡ true =
        sym (find_row-exists (has_job_id r'.job_id) db.jobs) ∙ ap is_some w.found in
      rw w.jobs (find-put r' id db.jobs x)

  -- A lease on another row.
  pub LeaseOk-other :
      (l : ProposedLease) (k : LeaseOk db l)
      → (l.job.job_id == r'.job_id) ≡ false
      → (k' : LeaseOk db' l) × (k'.row ≡ k.row)
  unfolding load_job
  LeaseOk-other l k n = (
    record {
      row = k.row;
      found = load_job-Wrote l.job.job_id ∙ rw n k.found;
      active = k.active;
      head = rw w.jobs (IsHead-put db.jobs k.row r r' w.found w.stays w.active k.head);
      left = k.left;
    },
    refl,
  )

  -- A lease on a row that stays nonterminal.
  LeaseOk-same :
      (l : ProposedLease)
      → LeaseOk db l
      → (l.job.job_id == r'.job_id) ≡ true
      → is_active r'.state ≡ true
      → r'.max_attempts ≡ r.max_attempts
      → LeaseOk db' l
  unfolding load_job
  LeaseOk-same l k n a m =
      let i : l.job.job_id ≡ r'.job_id = (==_iff l.job.job_id r'.job_id).0 n in
      let same : k.row ≡ r = some-injective (sym k.found ∙ rw i w.found) in
      record {
        row = r';
        found = load_job-Wrote l.job.job_id ∙ rw n refl;
        active = a;
        head = rw w.jobs (
            IsHead-put db.jobs r' r r' w.found w.stays w.active
              (IsHead-Stays db.jobs r r' w.stays (subst (IsHead db.jobs) same k.head)));
        left = rw m (subst (λ (x : JobRow). l.job.attempt < x.max_attempts) same k.left);
      }

  pub LeaseOk-kept :
      (l : ProposedLease)
      → LeaseOk db l
      → is_active r'.state ≡ true
      → r'.max_attempts ≡ r.max_attempts
      → LeaseOk db' l
  LeaseOk-kept l k a m = elim (Bool-cases (l.job.job_id == r'.job_id)) [
    | inl e ↦ LeaseOk-same l k e a m
    | inr e ↦ let o = LeaseOk-other l k e in o.0
  ]

-- The attempt of a granted lease does not wrap.
next_attempt_lem : (a m : ℕ) → a < m → m < 2 ^ 32 → ((a + 1) % 2 ^ 32 ≤ m)
next_attempt_lem a m h k = omega arith

leased_checks :
    (request : ClaimRequest) (expiry : ℤ) (t token : Id128) (n : ℕ) (r : JobRow)
    → is_active r.state ≡ true
    → check_row r ≡ true
    → check_row (to_leased request expiry t n token r) ≡ true
unfolding check_row to_leased
leased_checks request expiry t token n r a c =
    let f = not_terminal_of r.state a in
    let d : is_none r.terminal_at_ms ≡ true = ground (arith, c, f) in
    let e : ltb 0 r.max_attempts ≡ true = ground (arith, c) in rw e (ground (arith, d))

module _ (request : ClaimRequest) (expiry : ℤ) (t : Id128) where
  granted_RowOk :
      (l : ProposedLease) (r : JobRow)
      → RowOk r
      → is_active r.state ≡ true
      → l.job.attempt < r.max_attempts
      → RowOk (to_leased request expiry t (next_attempt l.job) l.lease_token r)
  unfolding to_leased
  granted_RowOk l r k a m = record {
    checks = leased_checks request expiry t l.lease_token (next_attempt l.job) r a k.checks;
    attempts = next_attempt_lem l.job.attempt r.max_attempts m k.word;
    left = λ w. cc;
    word = k.word;
  }

  insert_receipt-jobs :
      (db : Db) (row : ReceiptRow)
      → Ensures
          (λ d. (d.jobs ≡ db.jobs) × (d.active_partitions ≡ db.active_partitions))
          (insert_receipt db row)
  unfolding insert_receipt
  insert_receipt-jobs db row =
      Ensures-reject_if
        (exists_row (λ c. c.transaction_id == row.transaction_id && c.job_id == row.job_id)
          db.claim_receipts)
        _ _
        (λ _.
          Ensures-guard (exists_row (has_transaction_id row.transaction_id) db.transactions) _ _
            (λ _. Ensures-ok _ _ refl (refl, refl)))

  -- The tables after a grant, and the leases that are still to be granted.
  pub record Granted (db d : Db) : Type 0 where
    pub ok' : JobsOk d
    pub leases : (l : ProposedLease) → LeaseOk db l → LeaseOk d l

  module _ (db : Db) (h : JobsOk db) (l : ProposedLease) (k : LeaseOk db l) where
    granted_row : JobRow
    granted_row = to_leased request expiry t (next_attempt l.job) l.lease_token k.row

    granted-Stays : Stays k.row granted_row
    unfolding granted_row to_leased
    granted-Stays = record { id = refl; sequence = refl; queue = refl; partition_key = refl }

    granted_found : load_job db granted_row.job_id ≡ some k.row
    unfolding granted_row to_leased
    granted_found = found h l.job.job_id k.row k.found

    granted_JobsOk : JobsOk (write_row granted_row db)
    unfolding granted_row to_leased
    granted_JobsOk =
        lease-JobsOk db k.row granted_row h granted_found granted-Stays k.active refl k.head
          (granted_RowOk l k.row (load_job-RowOk db k.row l.job.job_id h k.found) k.active k.left)

    granted_after :
        (d : Db) → d.jobs ≡ (write_row granted_row db).jobs → Wrote db k.row granted_row d
    unfolding write_row
    granted_after d e = record {
      jobs = e;
      found = granted_found;
      stays = granted-Stays;
      active = k.active;
    }

    granted_kept :
        (d : Db)
        → d.jobs ≡ (write_row granted_row db).jobs
        → (m : ProposedLease) → LeaseOk db m
        → LeaseOk d m
    unfolding granted_row to_leased
    granted_kept d e m n = LeaseOk-kept db d k.row granted_row (granted_after d e) m n refl refl

    granted_update :
        update_job l.job.job_id (to_leased request expiry t (next_attempt l.job) l.lease_token) db
        ≡ ok (write_row granted_row db)
    unfolding granted_row to_leased
    granted_update =
        update_job-write l.job.job_id
          (to_leased request expiry t (next_attempt l.job) l.lease_token) db k.row h.chain k.found
          (load_job-id db k.row l.job.job_id k.found)
          (leased_checks request expiry t l.lease_token (next_attempt l.job) k.row k.active
            (load_job-RowOk db k.row l.job.job_id h k.found).checks)

    lease_row :
        (d d' : Db)
        → write_row granted_row db ≡ d
        → insert_receipt d (receipt_of request expiry t l) ≡ ok d'
        → Granted db d'
    lease_row d d' e q =
        let s = (insert_receipt-jobs d (receipt_of request expiry t l)).at d' q in
        record {
          ok' = SameJobs-JobsOk d d' (subst JobsOk e granted_JobsOk) s;
          leases = granted_kept d' (s.0 ∙ ap (λ (x : Db). x.jobs) (sym e));
        }

    grant-Granted : Ensures (Granted db) (grant db request expiry t l)
    unfolding grant
    grant-Granted =
        Ensures-bind
          (update_job l.job.job_id (to_leased request expiry t (next_attempt l.job) l.lease_token)
            db)
          _
          (λ d e. record { at = λ d' q. lease_row d d' (ok-injective (sym granted_update ∙ e)) q })

  -- Granting leases keeps the invariant.
  pub grant_all-JobsOk :
      (ls : List ProposedLease) (db : Db)
      → JobsOk db
      → All (LeaseOk db) ls
      → Ensures JobsOk (grant_all db request expiry t ls)
  unfolding grant_all
  grant_all-JobsOk [] db h k = Ensures-ok _ _ refl h
  grant_all-JobsOk (l ∷ ls) db h k = Ensures-bind (grant db request expiry t l) _ (λ d e.
      let g = (grant-Granted db h l k.0).at d e in
      grant_all-JobsOk ls d g.ok' (All-mono (LeaseOk db) (LeaseOk d) ls g.leases k.1))
