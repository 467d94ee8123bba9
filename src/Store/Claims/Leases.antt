-- ===== src/Store/Claims/Leases.antt =====
-- Which leases `plan_leases` of src/store/jobs.rs proposes.
use minisqlite.Base.{
  ℕ, suc, ◌+◌, ◌≤◌, ◌≡◌, refl, false, ◌==◌, leb, Bytes, List, [], ◌∷◌, Option, none, some, length,
  All, arith, Result, ok, Ensures, Ensures-bind, Ensures-if, Ensures-ok,
}
use minisqlite.Errors.{Error}
use minisqlite.Jobs.{ClaimRequest}
use minisqlite.Store.Schema.{Db, JobRow}
use minisqlite.Store.Claims.Plan.{
  ProposedLease, Plan, ready_head, new_id, lease_loop, plan_leases, cursor_of, partitions_of,
  rotation,
}

new_id-nonzero : (o : Option Bytes) → Ensures (λ t. (t == 0) ≡ false) (new_id o)
unfolding new_id
new_id-nonzero none = record { at = λ t e. cc }
new_id-nonzero (some bytes) = Ensures-ok _ _ refl (ground arith)

longer :
    (n count limit : ℕ)
    → leb limit count ≡ false
    → (suc count ≤ limit → n + suc count ≤ limit)
    → suc n + count ≤ limit
longer n count limit e h = omega (arith, h (ground (arith, e)))

module _ (db : Db) (request : ClaimRequest) where
  -- A lease that may be granted: the job is the ready head of a partition of the queue, and the
  -- token is not the zero id.
  pub record Grantable (l : ProposedLease) : Type 0 where
    pub partition : Bytes
    pub head : ready_head db request partition ≡ some l.job
    pub token : (l.lease_token == 0) ≡ false

  -- What the loop returns from `count` leases on.
  pub record PlanOk (count : ℕ) (plan : Plan) : Type 0 where
    pub leases : All Grantable plan.0
    pub bound : count ≤ request.limit → length plan.0 + count ≤ request.limit

  chosen :
      (o : Option JobRow) (count : ℕ) (skip : Result Plan Error) (m : JobRow → Result Plan Error)
      → Ensures (PlanOk count) skip
      → ((job : JobRow) → o ≡ some job → Ensures (PlanOk count) (m job))
      → Ensures
          (PlanOk count)
          (elim o as (λ _. Result Plan Error) [ none ↦ skip | some job ↦ m job ])
  chosen none count skip m h k = h
  chosen (some job) count skip m h k = k job refl

  lease_loop-PlanOk :
      (entropy : ℕ → Option Bytes) (ps : List Bytes) (count : ℕ) (last : Option Bytes)
      → Ensures (PlanOk count) (lease_loop entropy db request ps count last)
  unfolding lease_loop
  lease_loop-PlanOk entropy [] count last =
      Ensures-ok _ _ refl (record { leases = tt; bound = λ h. omega (arith, h) })
  lease_loop-PlanOk entropy (p ∷ ps) count last =
      Ensures-if (leb request.limit count) _ _
        (λ _. Ensures-ok _ _ refl (record { leases = tt; bound = λ h. omega (arith, h) }))
        (λ below.
          chosen (ready_head db request p) count _ _ (lease_loop-PlanOk entropy ps count last)
            (λ job e. Ensures-bind (new_id (entropy count)) _ (λ token t.
              Ensures-bind (lease_loop entropy db request ps (suc count) (some p)) _ (λ plan q.
                let k = (lease_loop-PlanOk entropy ps (suc count) (some p)).at plan q in
                Ensures-ok _ _ refl (record {
                  leases = (
                    record {
                      partition = p;
                      head = e;
                      token = (new_id-nonzero (entropy count)).at token t;
                    },
                    k.leases,
                  );
                  bound = λ h. longer (length plan.0) count request.limit below k.bound;
                })))))

-- Each planned lease is of the ready head of a partition of the queue, its token is not the
-- zero id, and there are at most as many as were asked for.
pub plan_leases-Grantable :
    (entropy : ℕ → Option Bytes) (db : Db) (request : ClaimRequest) (plan : Plan)
    → plan_leases entropy db request ≡ ok plan
    → All (Grantable db request) plan.0 × (length plan.0 ≤ request.limit)
unfolding plan_leases
plan_leases-Grantable entropy db request plan e =
    (Ensures-if {P = λ (p : Plan). All (Grantable db request) p.0 × (length p.0 ≤ request.limit)}
        (request.limit == 0) _ _ (λ _. Ensures-ok _ _ refl (tt, omega arith))
        (λ _. record {
          at = λ p q.
              let k =
                (lease_loop-PlanOk db request entropy
                    (rotation (cursor_of db request.queue) (partitions_of db request.queue)) 0
                    none).at
                  p q in
              (k.leases, ground (arith, k.bound (omega arith)));
        })).at
      plan e
