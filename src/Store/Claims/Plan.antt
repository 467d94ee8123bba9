-- ===== src/Store/Claims/Plan.antt =====
-- `plan_maintenance` and `plan_leases` of src/store/jobs.rs. Lease tokens come from `Id::new`, whose
-- random bytes are an argument: `entropy n` is the n-th draw from the operating system, if it succeeds.
use minisqlite.Base.{
  ℕ, zero, suc, ℤ, pos, Bytes, bytes_eq, bytes_le, List, [], ◌∷◌, ◌++◌, map, Option, none, some,
  Bool, false, ◌&&◌, leb, ltb_ℤ, leb_ℤ, ◌==◌, unwrap_or, i64_min, head?, take, if◌then◌else◌,
  Result, ok, err, ◌>>=◌,
}
use mathlib.Core.Option
use minisqlite.Id.{Id128, from_bytes}
use minisqlite.Sql.{select, find_row, order_by, limit_rows}
use minisqlite.Config.{EffectMode, requires_reconciliation, explicitly_idempotent}
use minisqlite.Errors.{Error, io}
use minisqlite.Jobs.{ClaimRequest}
use minisqlite.Jobs.State.{JobState, pending, retry_wait, uncertain, dead, is_leased}
use minisqlite.Store.Schema.{Db, JobRow}
use minisqlite.Store.Jobs.Table.{active_in}
use minisqlite.Store.Jobs.Ops.{is_exhausted}
use minisqlite.Store.Jobs.Read.{by_sequence}

pub record MaintenanceAction : Type 0 where
  pub job : JobRow
  pub to : JobState

pub record ProposedLease : Type 0 where
  pub job : JobRow
  pub lease_token : Id128

-- `Id::new`: a failed draw is an error, and the zero id becomes the id whose last byte is 1.
unfoldable pub new_id : Option Bytes → Result Id128 Error
new_id none = err (Error.storage io)
new_id (some bytes) = ok (if from_bytes bytes == 0 then 1 else from_bytes bytes)

abbrev pub maintenance_limit : ℤ
maintenance_limit = pos 64

-- `lease_expires_at_ms < ?3`, not true of NULL.
abbrev pub expires_before : Option ℤ → ℤ → Bool
expires_before none now = false
expires_before (some t) now = ltb_ℤ t now

abbrev pub is_expired : ClaimRequest → JobRow → Bool
is_expired request r =
    bytes_eq r.queue request.queue
    && (is_leased r.state && expires_before r.lease_expires_at_ms request.now_ms)

abbrev pub by_expiry : JobRow → JobRow → Bool
by_expiry r s =
    leb_ℤ (unwrap_or r.lease_expires_at_ms i64_min) (unwrap_or s.lease_expires_at_ms i64_min)

abbrev pub expired_state : EffectMode → JobRow → JobState
expired_state requires_reconciliation job = uncertain
expired_state explicitly_idempotent job = if is_exhausted job then dead else pending

unfoldable pub action_of : JobRow → MaintenanceAction
action_of job = record { job = job; to = expired_state job.effect_mode job }

unfoldable pub plan_maintenance : Db → ClaimRequest → List MaintenanceAction
unfolding action_of
plan_maintenance db request =
    map action_of
      (limit_rows maintenance_limit (order_by by_expiry (select (is_expired request) db.jobs)))

unfoldable pub cursor_of : Db → Bytes → Option Bytes
cursor_of db queue =
    Option.map (λ c. c.last_partition_key) (find_row (λ c. bytes_eq c.queue queue) db.queue_cursors)

-- The active partitions of the queue, in the order of their keys.
unfoldable pub partitions_of : Db → Bytes → List Bytes
partitions_of db queue =
    order_by bytes_le
      (map (λ a. a.partition_key) (select (λ a. bytes_eq a.queue queue) db.active_partitions))

-- `[T]::partition_point` of a sorted slice: how many elements stand before the first that fails.
unfoldable pub partition_point : (Bytes → Bool) → List Bytes → ℕ
partition_point p [] = 0
partition_point p (x ∷ xs) = let rest = partition_point p xs in if p x then suc rest else 0

unfoldable pub drop : ℕ → List Bytes → List Bytes
drop zero xs = xs
drop (suc n) [] = []
drop (suc n) (x ∷ xs) = drop n xs

abbrev pub start_of : Option Bytes → List Bytes → ℕ
start_of none partitions = 0
start_of (some cursor) partitions = partition_point (λ p. bytes_le p cursor) partitions

-- `partitions[start..]` and then `partitions[..start]`.
unfoldable pub rotation : Option Bytes → List Bytes → List Bytes
unfolding partition_point drop
rotation cursor partitions =
    drop (start_of cursor partitions) partitions ++ take (start_of cursor partitions) partitions

-- The oldest nonterminal job of a partition.
unfoldable pub partition_head : Db → Bytes → Bytes → Option JobRow
partition_head db queue partition =
    head? (limit_rows (pos 1) (order_by by_sequence (select (active_in queue partition) db.jobs)))

abbrev pub state_ready : JobState → ℤ → JobRow → Bool
state_ready pending now job = leb_ℤ job.not_before_ms now
state_ready retry_wait now job =
    leb_ℤ job.not_before_ms now && leb_ℤ (unwrap_or job.retry_after_ms i64_min) now
state_ready _ now job = false

unfoldable pub is_ready : ℤ → JobRow → Bool
is_ready now job = state_ready job.state now job

abbrev pub if_ready : ℤ → Option JobRow → Option JobRow
if_ready now none = none
if_ready now (some job) = if is_ready now job then some job else none

-- The head of a partition, if it is ready.
unfoldable pub ready_head : Db → ClaimRequest → Bytes → Option JobRow
unfolding partition_head is_ready
ready_head db request partition =
    if_ready request.now_ms (partition_head db request.queue partition)

abbrev pub Plan : Type 0
Plan = List ProposedLease × Option Bytes

abbrev pub with_lease : JobRow → Id128 → Plan → Plan
with_lease job token (leases, last) = (record { job = job; lease_token = token } ∷ leases, last)

-- The loop over the partitions; `count` is `leases.len()`, and a lease takes the next draw.
unfoldable pub lease_loop :
    (ℕ → Option Bytes) → Db → ClaimRequest → List Bytes → ℕ → Option Bytes → Result Plan Error
unfolding ready_head new_id
lease_loop entropy db request [] count last = ok ([], last)
lease_loop entropy db request (p ∷ ps) count last =
    let skip = lease_loop entropy db request ps count last in
    let lease = lease_loop entropy db request ps (suc count) (some p) in
    if leb request.limit count then ok ([], last) else elim (ready_head db request p) [
      | none ↦ skip
      | some job ↦
          new_id (entropy count) >>= λ token. lease >>= λ plan. ok (with_lease job token plan)
    ]

unfoldable pub plan_leases : (ℕ → Option Bytes) → Db → ClaimRequest → Result Plan Error
unfolding lease_loop cursor_of partitions_of rotation
plan_leases entropy db request =
    if request.limit == 0
    then ok ([], none)
    else lease_loop entropy db request
        (rotation (cursor_of db request.queue) (partitions_of db request.queue)) 0 none
