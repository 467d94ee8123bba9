-- ===== src/Jobs.antt =====
-- src/jobs.rs: job specifications, requests and outcomes.
pub mod State
pub mod Transitions
use minisqlite.Base.{ℕ, ℤ, pos, Bytes, List, Option, none, some}
use minisqlite.Id.{Id128}
use minisqlite.Config.{EffectMode, requires_reconciliation, explicitly_idempotent}
use State.{JobState}

pub record JobSpec : Type 0 where
  pub job_id : Id128
  pub queue : Bytes
  pub partition_key : Bytes
  pub payload : Bytes
  pub not_before_ms : ℤ
  pub max_attempts : ℕ
  pub effect_mode : EffectMode
  pub idempotency_key : Option Bytes

-- `JobSpec::base`, and the three constructors over it.
unfoldable pub base : Id128 → Bytes → Bytes → Bytes → EffectMode → Option Bytes → JobSpec
base job_id queue partition_key payload effect_mode idempotency_key = record {
  job_id = job_id;
  queue = queue;
  partition_key = partition_key;
  payload = payload;
  not_before_ms = pos 0;
  max_attempts = 3;
  effect_mode = effect_mode;
  idempotency_key = idempotency_key;
}

unfoldable pub reconcilable : Id128 → Bytes → Bytes → Bytes → JobSpec
unfolding base
reconcilable job_id queue partition_key payload =
    base job_id queue partition_key payload requires_reconciliation none

unfoldable pub idempotent : Id128 → Bytes → Bytes → Bytes → Bytes → JobSpec
unfolding base
idempotent job_id queue partition_key payload key =
    base job_id queue partition_key payload explicitly_idempotent (some key)

unfoldable pub intrinsically_idempotent : Id128 → Bytes → Bytes → Bytes → JobSpec
unfolding base
intrinsically_idempotent job_id queue partition_key payload =
    base job_id queue partition_key payload explicitly_idempotent none

unfoldable pub with_not_before_ms : JobSpec → ℤ → JobSpec
with_not_before_ms s t = record s { not_before_ms = t }

unfoldable pub with_max_attempts : JobSpec → ℕ → JobSpec
with_max_attempts s n = record s { max_attempts = n }

pub record JobInfo : Type 0 where
  pub job_id : Id128
  pub spec : JobSpec
  pub state : JobState
  pub attempt : ℕ
  pub lease_expires_at_ms : Option ℤ
  pub worker_id : Option Bytes
  pub retry_after_ms : Option ℤ
  pub terminal_at_ms : Option ℤ
  pub result_digest : Option Bytes
  pub error_summary : Option Bytes

pub record ClaimedJob : Type 0 where
  pub job_id : Id128
  pub queue : Bytes
  pub partition_key : Bytes
  pub payload : Bytes
  pub worker_id : Bytes
  pub lease_token : Id128
  pub attempt : ℕ
  pub lease_expires_at_ms : ℤ
  pub idempotency_key : Option Bytes

pub record ClaimRequest : Type 0 where
  pub queue : Bytes
  pub worker_id : Bytes
  pub now_ms : ℤ
  pub lease_ms : ℤ
  pub limit : ℕ

pub record CommittedClaims : Type 0 where
  pub transaction_id : Id128
  pub jobs : List ClaimedJob
  pub stale_jobs : List Id128

pub data ClaimOutcome : Type 0 where
  noop : ClaimOutcome
  maintenance_committed : Id128 → ClaimOutcome
  committed : CommittedClaims → ClaimOutcome

pub data ClaimRecovery : Type 0 where
  committed : CommittedClaims → ClaimRecovery
  maintenance_committed : Id128 → ClaimRecovery
  absent : ClaimRecovery

pub data Resolution : Type 0 where
  retry mark_succeeded mark_dead : Resolution

pub record JobAck : Type 0 where
  pub job_id : Id128
  pub lease_token : Id128
  pub result_digest : Option Bytes

pub record JobFailure : Type 0 where
  pub job_id : Id128
  pub lease_token : Id128
  pub error_summary : Bytes
  pub retry_after_ms : Option ℤ

pub record JobCancellation : Type 0 where
  pub job_id : Id128
  pub lease_token : Option Id128

pub record JobResolution : Type 0 where
  pub job_id : Id128
  pub resolution : Resolution

pub record LeaseExtension : Type 0 where
  pub job_id : Id128
  pub lease_token : Id128
  pub new_expiry_ms : ℤ

pub record LeaseExtensionReceipt : Type 0 where
  pub job_id : Id128
  pub attempt : ℕ
  pub lease_expires_at_ms : ℤ
