-- ===== src/Reliability.antt =====
-- What becomes of a failed job: reliability/failures.py.
pub mod Failures
pub mod Backoff
pub mod Verdicts
pub mod Delays
pub mod Examples
