-- ===== src/Config.antt =====
-- src/config.rs: effect modes and the size limits of a store. Sizes are byte counts.
use minisqlite.Base.{
  ℤ, pos, utf8, ℕ, zero, suc, ◌*◌, ◌^◌, Option, none, some, Bytes, length, ltb, ◌==◌, Result, ok,
  reject_if, ◌>>◌,
}
use minisqlite.Errors.{
  ValidationError, too_large, zero_operation_limit, zero_replace_limit, Field, event_payload,
  metadata, projection_key, projection_value, job_payload, error_summary,
}

pub data Durability : Type 0 where
  strict relaxed : Durability

-- `Durability::synchronous_pragma`.
abbrev pub synchronous_pragma : Durability → Bytes
synchronous_pragma strict = utf8 "FULL"
synchronous_pragma relaxed = utf8 "NORMAL"

pub data EffectMode : Type 0 where
  requires_reconciliation explicitly_idempotent : EffectMode

unfoldable pub encode_mode : EffectMode → ℕ
encode_mode requires_reconciliation = 0
encode_mode explicitly_idempotent = 1

unfoldable pub decode_mode : ℤ → Option EffectMode
decode_mode (pos zero) = some requires_reconciliation
decode_mode (pos (suc zero)) = some explicitly_idempotent
decode_mode _ = none

pub record Limits : Type 0 where
  pub max_event_payload : ℕ
  pub max_metadata : ℕ
  pub max_projection_key : ℕ
  pub max_projection_value : ℕ
  pub max_job_payload : ℕ
  pub max_operations_per_commit : ℕ
  pub max_string_len : ℕ
  pub max_summary_len : ℕ
  pub max_replace_entries : ℕ

abbrev pub default_limits : Limits
default_limits = record {
  max_event_payload = 2 ^ 20;
  max_metadata = 64 * 2 ^ 10;
  max_projection_key = 2 ^ 20;
  max_projection_value = 4 * 2 ^ 20;
  max_job_payload = 2 ^ 20;
  max_operations_per_commit = 1024;
  max_string_len = 4096;
  max_summary_len = 4096;
  max_replace_entries = 10_000;
}

abbrev pub Check : Type 0
Check = Result (Unit {0}) ValidationError

-- `if size > limit { return Err(too_large(..)) }`.
unfoldable pub check_size : Field → ℕ → ℕ → Check
check_size kind size limit = reject_if (ltb limit size) (too_large kind size limit)

unfoldable pub validate_metadata : Limits → ℕ → Check
unfolding check_size
validate_metadata l len = check_size metadata len l.max_metadata

unfoldable pub validate_event : Limits → ℕ → ℕ → Check
unfolding check_size validate_metadata
validate_event l payload_len metadata_len = do
  check_size event_payload payload_len l.max_event_payload
  validate_metadata l metadata_len

unfoldable pub validate_projection_key : Limits → ℕ → Check
unfolding check_size
validate_projection_key l len = check_size projection_key len l.max_projection_key

unfoldable pub validate_projection_value : Limits → ℕ → Check
unfolding check_size
validate_projection_value l len = check_size projection_value len l.max_projection_value

unfoldable pub validate_job_payload : Limits → ℕ → Check
unfolding check_size
validate_job_payload l len = check_size job_payload len l.max_job_payload

unfoldable pub validate_string : Limits → Field → Bytes → Check
unfolding check_size
validate_string l field s = check_size field (length s) l.max_string_len

unfoldable pub validate_summary : Limits → Bytes → Check
unfolding check_size
validate_summary l s = check_size error_summary (length s) l.max_summary_len

-- `Limits::validate`.
unfoldable pub validate : Limits → Check
validate l = do
  reject_if (l.max_operations_per_commit == 0) zero_operation_limit
  reject_if (l.max_replace_entries == 0) zero_replace_limit
  ok tt
