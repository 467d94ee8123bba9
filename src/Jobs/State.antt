-- ===== src/Jobs/State.antt =====
-- `JobState` of src/jobs.rs: the durable states of a job and the transitions between them.
use minisqlite.Base.{ℕ, ℤ, pos, zero, suc, Bool, true, false, Option, none, some, Bytes, utf8}

pub data JobState : Type 0 where
  pending leased retry_wait uncertain succeeded dead cancelled : JobState

-- `JobState::encode`.
unfoldable pub encode : JobState → ℕ
encode pending = 0
encode leased = 1
encode retry_wait = 2
encode uncertain = 3
encode succeeded = 4
encode dead = 5
encode cancelled = 6

-- `JobState::name`.
abbrev pub name : JobState → Bytes
name pending = utf8 "pending"
name leased = utf8 "leased"
name retry_wait = utf8 "retry_wait"
name uncertain = utf8 "uncertain"
name succeeded = utf8 "succeeded"
name dead = utf8 "dead"
name cancelled = utf8 "cancelled"

-- `JobState::decode`.
unfoldable pub decode : ℤ → Option JobState
decode (pos zero) = some pending
decode (pos (suc zero)) = some leased
decode (pos (suc (suc zero))) = some retry_wait
decode (pos (suc (suc (suc zero)))) = some uncertain
decode (pos (suc (suc (suc (suc zero))))) = some succeeded
decode (pos (suc (suc (suc (suc (suc zero)))))) = some dead
decode (pos (suc (suc (suc (suc (suc (suc zero))))))) = some cancelled
decode _ = none

abbrev pub is_terminal : JobState → Bool
is_terminal succeeded = true
is_terminal dead = true
is_terminal cancelled = true
is_terminal _ = false

-- Membership in `ACTIVE_STATES_SQL`.
abbrev pub is_active : JobState → Bool
is_active pending = true
is_active leased = true
is_active retry_wait = true
is_active uncertain = true
is_active _ = false

abbrev pub is_leased : JobState → Bool
is_leased leased = true
is_leased _ = false

abbrev pub is_pending : JobState → Bool
is_pending pending = true
is_pending _ = false

-- `JobState::can_transition_to`.
unfoldable pub can_transition_to : JobState → JobState → Bool
can_transition_to pending leased = true
can_transition_to pending cancelled = true
can_transition_to retry_wait leased = true
can_transition_to leased succeeded = true
can_transition_to leased retry_wait = true
can_transition_to leased dead = true
can_transition_to leased cancelled = true
can_transition_to leased uncertain = true
can_transition_to leased pending = true
can_transition_to leased leased = true
can_transition_to uncertain pending = true
can_transition_to uncertain succeeded = true
can_transition_to uncertain dead = true
can_transition_to _ _ = false
