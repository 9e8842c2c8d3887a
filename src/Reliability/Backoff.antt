-- ===== src/Reliability/Backoff.antt =====
-- `calculate_retry_delay` of reliability/failures.py. Seconds are in whole microseconds; the product with a random
-- factor is the argument `jitter`.
use mura_project.Prelude.{ℕ, ◌-◌, ◌*◌, ◌^◌, min, max, Bool, Option, none, some, if◌then◌else◌, ltb}

-- The delay without a `Retry-After` that counts
unfoldable pub backoff_delay : (ℕ → ℕ) → Bool → ℕ → ℕ → ℕ → ℕ
backoff_delay jitter with_jitter base_seconds max_seconds attempt =
    let backoff = min (base_seconds * 2 ^ (attempt - 1)) max_seconds in
    max 500000 (if with_jitter then min (jitter backoff) max_seconds else backoff)

unfoldable pub calculate_retry_delay : (ℕ → ℕ) → Bool → ℕ → ℕ → Option ℕ → ℕ → ℕ
calculate_retry_delay jitter with_jitter base_seconds max_seconds none attempt =
    backoff_delay jitter with_jitter base_seconds max_seconds attempt
calculate_retry_delay jitter with_jitter base_seconds max_seconds (some seconds) attempt =
    if ltb 0 seconds
    then min seconds max_seconds
    else backoff_delay jitter with_jitter base_seconds max_seconds attempt
