-- ===== src/Jobs/Transitions.antt =====
-- The codes and the transitions of `JobState` (src/jobs.rs).
use minisqlite.Base.{
  ℕ, ℤ, pos, negsuc, pos_part, ap, zero, suc, ◌≡◌, refl, ◌↔◌, some, true, false, arith,
}
use minisqlite.Jobs.State.{
  JobState, pending, leased, retry_wait, uncertain, succeeded, dead, cancelled, encode, decode,
  is_terminal, can_transition_to,
}

decode_pos : (n : ℕ) (s : JobState) → (decode (pos n) ≡ some s) ↔ (encode s ≡ n)
unfolding decode encode
decode_pos zero s = ground arith
decode_pos (suc zero) s = ground arith
decode_pos (suc (suc zero)) s = ground arith
decode_pos (suc (suc (suc zero))) s = ground arith
decode_pos (suc (suc (suc (suc zero)))) s = ground arith
decode_pos (suc (suc (suc (suc (suc zero))))) s = ground arith
decode_pos (suc (suc (suc (suc (suc (suc zero)))))) s = ground arith
decode_pos (suc (suc (suc (suc (suc (suc (suc n))))))) s = ground arith

-- A code decodes to a job state exactly when it is the code of that state.
pub decode_iff : (code : ℤ) (s : JobState) → (decode code ≡ some s) ↔ (pos (encode s) ≡ code)
unfolding decode encode
decode_iff (negsuc n) s = (λ h. cc, λ h. cc)
decode_iff (pos n) s = (λ h. ap pos ((decode_pos n s).0 h), λ h. (decode_pos n s).1 (ap pos_part h))

-- A job state is terminal exactly when no transition leaves it.
pub is_terminal_iff :
    (s : JobState) → (is_terminal s ≡ true) ↔ ((t : JobState) → can_transition_to s t ≡ false)
unfolding can_transition_to
is_terminal_iff pending = (λ h. cc, λ h. cc (h leased))
is_terminal_iff leased = (λ h. cc, λ h. cc (h dead))
is_terminal_iff retry_wait = (λ h. cc, λ h. cc (h leased))
is_terminal_iff uncertain = (λ h. cc, λ h. cc (h dead))
is_terminal_iff succeeded = (λ h t. refl, λ h. refl)
is_terminal_iff dead = (λ h t. refl, λ h. refl)
is_terminal_iff cancelled = (λ h t. refl, λ h. refl)
