-- ===== src/Recordings.antt =====
-- The recording queue: storage/database.py, storage/completion.py and the retry metadata of jobs.py.
pub mod Rows
pub mod Queue
pub mod Completion
pub mod Scope
pub mod Retry
pub mod Claims
pub mod Workers
pub mod Effects
pub mod Leases
pub mod Invariant
pub mod Attempts
pub mod Ownership
pub mod Trace
pub mod Families
pub mod Deletion
pub mod Erasure
mod Examples
