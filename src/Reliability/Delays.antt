-- ===== src/Reliability/Delays.antt =====
-- How long a failed job waits (reliability/failures.py, `calculate_retry_delay`).
use mura_project.Prelude.{ℕ, Bool, false, Option, none, some, ltb}

-- Whether the server named a time to wait that counts
abbrev pub is_named : Option ℕ → Bool
is_named none = false
is_named (some n) = ltb 0 n
