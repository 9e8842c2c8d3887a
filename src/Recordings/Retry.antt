-- ===== src/Recordings/Retry.antt =====
-- jobs.py: the retry metadata that the API shows for a job.
use mura_project.Prelude.{
  eq_iff, true, false, ◌≤◌, ◌≡◌, ◌↔◌, arith, ◌*◌, ℕ, ◌+◌, ◌-◌, ◌/◌, String, Bool, true, false, ◌||◌,
  not, Option, none, some, if◌then◌else◌, str_eq,
}
use mura_project.Recordings.Rows.{JobStatus, is_queued}
use mura_project.Recordings.Queue.{waiting_for_asr_stage}

pub record RetryState : Type 0 where
  pub retryable : Bool
  pub retry_after_seconds : Option ℕ
  pub next_retry_at : Option ℕ

-- `max(0, math.ceil((next_attempt_at - now).total_seconds()))`: the truncated difference is
-- what `max(0, ·)` makes of an instant in the past.
unfoldable pub remaining_seconds : ℕ → ℕ → ℕ
remaining_seconds next_attempt_at now = (next_attempt_at - now + 999999) / 1000000

unfoldable pub resolve_retry_state : JobStatus → String → ℕ → ℕ → RetryState
unfolding remaining_seconds
resolve_retry_state status stage next_attempt_at now =
    if not (is_queued status) || not (str_eq stage waiting_for_asr_stage)
    then record { retryable = false; retry_after_seconds = none; next_retry_at = none }
    else record {
      retryable = true;
      retry_after_seconds = some (remaining_seconds next_attempt_at now);
      next_retry_at = some next_attempt_at;
    }

-- The countdown is the least number of whole seconds after which the job is due.
pub remaining_seconds-least :
    (next_attempt_at now seconds : ℕ)
    → (next_attempt_at ≤ now + 1000000 * seconds)
      ↔ (remaining_seconds next_attempt_at now ≤ seconds)
unfolding remaining_seconds
remaining_seconds-least next_attempt_at now seconds = (λ h. omega arith, λ h. omega arith)

-- A job is shown as retried by Core exactly when it is queued in the waiting stage, and its countdown
-- has reached 0 exactly when it is due.
pub resolve_retry_state-due :
    (status : JobStatus) (stage : String) (next_attempt_at now : ℕ)
    → let s = resolve_retry_state status stage next_attempt_at now in
      ((s.retryable ≡ true) ↔ ((is_queued status ≡ true) × (stage ≡ waiting_for_asr_stage)))
      × (s.retryable ≡ true → (s.retry_after_seconds ≡ some 0) ↔ (next_attempt_at ≤ now))
unfolding resolve_retry_state
resolve_retry_state-due status stage next_attempt_at now = (
  (
    λ h. ground (arith, eq_iff stage waiting_for_asr_stage),
    λ h. ground (arith, eq_iff stage waiting_for_asr_stage),
  ),
  λ h. (λ e. ground arith, λ e. ground arith),
)
