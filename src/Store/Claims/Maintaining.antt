-- ===== src/Store/Claims/Maintaining.antt =====
-- The maintenance loop of `claim_jobs` in src/store/jobs.rs and the job tables.
use minisqlite.Base.{
  Bytes, ℤ, ◌<◌, ◌≡◌, refl, sym, ap, ◌∙◌, Bool, true, false, ◌==◌, ==_iff, List, [], ◌∷◌, Option,
  none, some, some-injective, All, All-mono, All-zip, arith, Bool-cases, inl, inr, map_err, Ensures,
  Ensures-bind, Ensures-ok, Ensures-map_err,
}
use minisqlite.Id.{Id128}
use minisqlite.Config.{EffectMode, requires_reconciliation, explicitly_idempotent}
use minisqlite.Errors.{ClaimError, error_to_claim}
use minisqlite.Sql.Order.{Apart}
use minisqlite.Jobs.{ClaimRequest}
use minisqlite.Jobs.State.{JobState, pending, uncertain, dead, is_active, is_leased}
use minisqlite.Store.Schema.{Db, JobRow, is_retry_wait}
use minisqlite.Store.Jobs.Table.{
  load_job, ensure_transition, to_terminal, to_nonterminal, set_terminal, set_nonterminal,
  drain_partition_if_empty,
}
use minisqlite.Store.Jobs.Ops.{is_exhausted}
use minisqlite.Store.Jobs.Rows.{write_row}
use minisqlite.Store.Jobs.Invariant.{JobsOk, is_waiting}
use minisqlite.Store.Jobs.Heads.{Differ}
use minisqlite.Store.Jobs.Preserve.{
  Idle, set_terminal-write, set_terminal-JobsOk, set_nonterminal-write, set_nonterminal-JobsOk,
}
use minisqlite.Store.Claims.Plan.{MaintenanceAction, ProposedLease, expired_state}
use minisqlite.Store.Claims.Run.{maintain, apply_maintenance, expired_at_final}
use minisqlite.Store.Claims.Granting.{LeaseOk, Wrote, load_job-Wrote, LeaseOk-other}

-- A planned action: its job is still as it was planned, an expired lease.
pub record Due (db : Db) (a : MaintenanceAction) : Type 0 where
  pub found : load_job db a.job.job_id ≡ some a.job
  pub leased : is_leased a.job.state ≡ true
  pub target : a.to ≡ expired_state a.job.effect_mode a.job

-- A planned lease on a job that is not leased now.
pub record Unleased (db : Db) (l : ProposedLease) : Type 0 where
  pub lease : LeaseOk db l
  pub idle : is_leased lease.row.state ≡ false

-- The tables after an action on `job`.
pub record Repaired (db : Db) (job : JobRow) (d : Db) : Type 0 where
  pub ok' : JobsOk d
  pub others : (id : Id128) → (id == job.job_id) ≡ false → load_job d id ≡ load_job db id
  pub leases :
      (l : ProposedLease) → Unleased db l → (l.job.job_id == job.job_id) ≡ false → Unleased d l

active_of : (st : JobState) → is_leased st ≡ true → is_active st ≡ true
active_of st h = ground (arith, h)

repaired :
    (db d : Db) (job r' : JobRow)
    → JobsOk d
    → r'.job_id ≡ job.job_id
    → Wrote db job r' d
    → Repaired db job d
repaired db d job r' h i w = record {
  ok' = h;
  others = λ id n. load_job-Wrote db d job r' w id ∙ rw (i, n) refl;
  leases = λ l u n.
      let o = LeaseOk-other db d job r' w l u.lease (rw i n) in
      record { lease = o.0; idle = ap (λ (x : JobRow). is_leased x.state) o.1 ∙ u.idle };
}

module _ (request : ClaimRequest) (t : Id128) (db : Db) (job : JobRow) (h : JobsOk db)
    (e : load_job db job.job_id ≡ some job) (leased' : is_leased job.state ≡ true) where
  Repaired-refl :
      (st : JobState)
      → Idle job st none
      → Ensures (Repaired db job) (set_nonterminal db job.job_id st none t)
  unfolding to_nonterminal write_row
  Repaired-refl st i = Ensures-ok _ _ (set_nonterminal-write db job h e st none t i) (
      repaired db _ job (to_nonterminal st none t job)
        (set_nonterminal-JobsOk db job h e st none t i) refl
        (record {
          jobs = refl;
          found = e;
          stays = record { id = refl; sequence = refl; queue = refl; partition_key = refl };
          active = active_of job.state leased';
        }))

  dead_Repaired :
      (now : ℤ) (s : Option Bytes)
      → Ensures (Repaired db job) (set_terminal db job dead now t none s)
  unfolding to_terminal write_row drain_partition_if_empty
  dead_Repaired now s =
      let w = set_terminal-write db job h e dead now t none s refl in
      Ensures-ok _ _ w (
        repaired db _ job (to_terminal dead now t none s job)
          ((set_terminal-JobsOk db job h e dead now t none s refl).at _ w) refl
          (record {
            jobs = refl;
            found = e;
            stays = record { id = refl; sequence = refl; queue = refl; partition_key = refl };
            active = active_of job.state leased';
          }))

  to_idle :
      (st : JobState)
      → is_active st ≡ true
      → is_leased st ≡ false
      → is_retry_wait st ≡ false
      → (is_waiting st ≡ true → job.attempt < job.max_attempts)
      → Idle job st none
  to_idle st a b c d = record {
    target = a;
    unleased = b;
    due = rw c refl;
    from = active_of job.state leased';
    claimed = ground (arith, leased');
    left = d;
  }

  maintain-Repaired :
      (mode : EffectMode) (b : Bool)
      → is_exhausted job ≡ b
      → Ensures (Repaired db job) (maintain db request t job (expired_state mode job))
  unfolding maintain
  maintain-Repaired requires_reconciliation b x =
      Repaired-refl uncertain (to_idle uncertain refl refl refl (λ w. cc))
  maintain-Repaired explicitly_idempotent true x =
      rw x (dead_Repaired request.now_ms (some expired_at_final))
  maintain-Repaired explicitly_idempotent false x =
      rw x (Repaired-refl pending (to_idle pending refl refl refl (λ w. ground (arith, x))))

module _ (db d : Db) (job : JobRow) (r : Repaired db job d) where
  Due-kept : (a : MaintenanceAction) → Due db a → Differ job a.job → Due d a
  Due-kept a k n = record {
    found = r.others a.job.job_id n ∙ k.found;
    leased = k.leased;
    target = k.target;
  }

  -- A planned lease is never on a repaired job: one waits for a claim, the other is leased.
  Unleased-kept :
      load_job db job.job_id ≡ some job
      → is_leased job.state ≡ true
      → (l : ProposedLease) → Unleased db l
      → Unleased d l
  Unleased-kept e a l u = elim (Bool-cases (l.job.job_id == job.job_id)) [
    | inl n ↦
        let i : l.job.job_id ≡ job.job_id = (==_iff l.job.job_id job.job_id).0 n in
        let same : u.lease.row ≡ job = some-injective (sym u.lease.found ∙ rw i e) in
        cc (a, u.idle, ap (λ (x : JobRow). is_leased x.state) same)
    | inr n ↦ r.leases l u n
  ]

module _ (request : ClaimRequest) (t : Id128) where
  maintained :
      (db : Db) (a : MaintenanceAction)
      → JobsOk db
      → Due db a
      → Ensures (Repaired db a.job) (maintain db request t a.job a.to)
  maintained db a h k =
      rw k.target (maintain-Repaired request t db a.job h k.found k.leased a.job.effect_mode _ refl)

  -- The repairs keep the invariant, and leave the planned leases as they are.
  pub apply_maintenance-Kept :
      (as' : List MaintenanceAction) (ls : List ProposedLease) (db : Db)
      → JobsOk db
      → All (Due db) as'
      → Apart (λ a b. Differ a.job b.job) as'
      → All (Unleased db) ls
      → Ensures (λ d. JobsOk d × All (Unleased d) ls) (apply_maintenance db request t as')
  unfolding apply_maintenance
  apply_maintenance-Kept [] ls db h k n u = Ensures-ok _ _ refl (h, u)
  apply_maintenance-Kept (a ∷ as') ls db h k n u =
      Ensures-bind (map_err error_to_claim (ensure_transition a.job a.to)) _ (λ _ _.
        Ensures-bind (map_err ClaimError.storage (maintain db request t a.job a.to)) _ (λ d e.
          let r = (Ensures-map_err ClaimError.storage _ (maintained db a h k.0)).at d e in
          apply_maintenance-Kept as' ls d r.ok'
            (All-zip _ _ _ as' (λ b q m. Due-kept db d a.job r b q m) k.1 n.0) n.1
            (All-mono (Unleased db) (Unleased d) ls
              (Unleased-kept db d a.job r k.0.found k.0.leased) u)))
