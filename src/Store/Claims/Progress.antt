-- ===== src/Store/Claims/Progress.antt =====
-- The lease planning of src/store/jobs.rs reaches every ready partition.
use minisqlite.Base.{
  ℕ, suc, ◌+◌, ◌≤◌, ◌≡◌, refl, sym, ap, subst, ◌∙◌, Bytes, bytes_eq, bytes_eq_iff, List, [], ◌∷◌,
  length, Bool, true, false, ◌==◌, ==_refl, leb, Option, none, some, is_some, Option-cases,
  some-injective, arith, Bool-cases, inl, inr, if◌then◌else◌, ok,
}
use minisqlite.Sql.{find_row, exists_row}
use minisqlite.Jobs.{ClaimRequest}
use minisqlite.Store.Schema.{Db, JobRow}
use minisqlite.Store.Jobs.Table.{is_partition, active_in, has_job_id, load_job}
use minisqlite.Store.Claims.Preserve.{head_found, if_ready-some}
use minisqlite.Store.Jobs.Invariant.{JobsOk}
use minisqlite.Store.Claims.Plan.{
  Plan, ProposedLease, new_id, rotation, cursor_of, partitions_of, ready_head, lease_loop,
  plan_leases, with_lease,
}
use minisqlite.Store.Claims.Rotation.{rotation-listed, length-rotation}

new_id-ok : (o : Option Bytes) → is_some o ≡ true → (token : ℕ) × (new_id o ≡ ok token)
unfolding new_id
new_id-ok none h = cc
new_id-ok (some bytes) h = (_, refl)

-- A plan leases a job.
unfoldable pub leases_job : JobRow → Plan → Bool
leases_job job plan = exists_row (λ (l : ProposedLease). l.job.job_id == job.job_id) plan.0

over : (limit n count : ℕ) → leb limit count ≡ true → suc n + count ≤ limit → false ≡ true
over limit n count full b = ground (arith, full, b)

unlisted : (b c : Bool) → (if b then true else c) ≡ true → (b ≡ true → c ≡ true) → c ≡ true
unlisted true c h k = k refl
unlisted false c h k = h

later : (b c : Bool) → c ≡ true → (if b then true else c) ≡ true
later true c h = refl
later false c h = h

here :
    (found job : JobRow) (c : Bool)
    → found ≡ job
    → (if found.job_id == job.job_id then true else c) ≡ true
here found job c e =
    let s : (found.job_id == job.job_id) ≡ true =
      subst (λ (x : JobRow). (found.job_id == x.job_id) ≡ true) e (==_refl found.job_id) in
    rw s refl

module _ (db : Db) (request : ClaimRequest) where
  nothing :
      {c : Bool} (p x : Bytes) (job : JobRow)
      → x ≡ p
      → ready_head db request x ≡ none
      → ready_head db request p ≡ some job
      → c ≡ true
  nothing p x job s e r = let t : none ≡ some job = sym e ∙ ap (ready_head db request) s ∙ r in cc

  first :
      (p x : Bytes) (found job : JobRow)
      → x ≡ p
      → ready_head db request x ≡ some found
      → ready_head db request p ≡ some job
      → found ≡ job
  first p x found job s e r = some-injective (sym e ∙ ap (ready_head db request) s ∙ r)

module _ (db : Db) (request : ClaimRequest) (entropy : ℕ → Option Bytes)
    (drawn : (n : ℕ) → is_some (entropy n) ≡ true) where
  -- When every draw succeeds so does the loop, and it leases the head of `p` if it comes to it.
  lease_loop-leases :
      (p : Bytes) (ps : List Bytes) (count : ℕ) (last : Option Bytes)
      → (plan : Plan) × (lease_loop entropy db request ps count last ≡ ok plan)
        × ((job : JobRow)
            → length ps + count ≤ request.limit
            → exists_row (λ x. bytes_eq x p) ps ≡ true
            → ready_head db request p ≡ some job
            → leases_job job plan ≡ true)
  unfolding lease_loop leases_job exists_row
  lease_loop-leases p [] count last = (([], last), refl, λ job b m r. cc)
  lease_loop-leases p (x ∷ ps) count last = elim (Bool-cases (leb request.limit count)) [
    | inl full ↦
        (([], last), rw full refl, λ job b m r. over request.limit (length ps) count full b)
    | inr room ↦ elim (Option-cases (ready_head db request x)) [
      | inl idle ↦
          let k = lease_loop-leases p ps count last in
          (
            k.0,
            rw (room, idle) k.1,
            λ job b m r.
                k.2 job (omega (arith, b))
                  (unlisted (bytes_eq x p) _ m
                    (λ s. nothing db request p x job ((bytes_eq_iff x p).0 s) idle r))
                  r,
          )
      | inr (found, e) ↦
          let t = new_id-ok (entropy count) (drawn count) in
          let k = lease_loop-leases p ps (suc count) (some x) in
          (
            with_lease found t.0 k.0,
            rw (room, e, t.1, k.1) refl,
            λ job b m r. elim (Bool-cases (bytes_eq x p)) [
              | inl s ↦
                  here found job _ (first db request p x found job ((bytes_eq_iff x p).0 s) e r)
              | inr s ↦
                  later (found.job_id == job.job_id) _
                    (k.2 job (omega (arith, b)) (unlisted (bytes_eq x p) _ m (λ t. cc)) r)
            ],
          )
    ]
  ]

exists_row-found :
    {A : Type 0} (p q : A → Bool) (xs : List A) (x : A)
    → find_row p xs ≡ some x
    → q x ≡ true
    → exists_row q xs ≡ true
unfolding find_row exists_row
exists_row-found p q [] x e h = cc
exists_row-found p q (y ∷ ys) x e h = elim (Bool-cases (p y)) [
  | inl t ↦
      let s : y ≡ x = some-injective (rw t at e) in
      let k : q y ≡ true = subst (λ z. q z ≡ true) (sym s) h in rw k refl
  | inr t ↦ later (q y) _ (exists_row-found p q ys x (rw t at e) h)
]

listed_head :
    (db : Db) (h : JobsOk db) (request : ClaimRequest) (p : Bytes) (job : JobRow)
    → ready_head db request p ≡ some job
    → exists_row (is_partition request.queue p) db.active_partitions ≡ true
unfolding ready_head load_job
listed_head db h request p job r =
    let f = head_found db h request p job (if_ready-some request.now_ms _ job r).0 in
    h.partitions request.queue p
    ∙ exists_row-found (has_job_id job.job_id) (active_in request.queue p) db.jobs job f.0 f.1

none_listed :
    {c : Bool} (q : Bytes → Bool) (ps : List Bytes)
    → length ps ≤ 0
    → exists_row q ps ≡ true
    → c ≡ true
unfolding exists_row
none_listed q [] h e = cc
none_listed q (x ∷ ps) h e = elim h [ ]

empty : (limit n : ℕ) {k : ℕ} → (limit == 0) ≡ true → n ≤ limit → k ≡ n → k ≤ 0
empty limit n z h e = ground (arith, z, h, e)

-- On tables that meet `JobsOk`, when every draw of random bytes succeeds and the request's
-- limit is at least the number of active partitions of its queue, planning returns a plan that
-- leases the job at the head of any partition whose head is ready.
pub plan_leases-leases_job :
    (db : Db) (request : ClaimRequest) (entropy : ℕ → Option Bytes) (p : Bytes) (job : JobRow)
    → JobsOk db
    → ((n : ℕ) → is_some (entropy n) ≡ true)
    → length (partitions_of db request.queue) ≤ request.limit
    → ready_head db request p ≡ some job
    → (plan : Plan) × (plan_leases entropy db request ≡ ok plan) × (leases_job job plan ≡ true)
unfolding plan_leases
plan_leases-leases_job db request entropy p job h drawn enough r =
    let ps = rotation (cursor_of db request.queue) (partitions_of db request.queue) in
    let m : exists_row (λ x. bytes_eq x p) ps ≡ true =
      rotation-listed db request.queue p ∙ listed_head db h request p job r in
    let size : length ps ≡ length (partitions_of db request.queue) =
      length-rotation (cursor_of db request.queue) (partitions_of db request.queue) in
    let k = lease_loop-leases db request entropy drawn p ps 0 none in
    elim (Bool-cases (request.limit == 0)) [
      | inl z ↦ (
        ([], none),
        rw z refl,
        none_listed (λ x. bytes_eq x p) ps (empty request.limit _ z enough size) m,
      )
      | inr z ↦ (k.0, rw z k.1, k.2 job (omega (arith, size, enough)) m r)
    ]
