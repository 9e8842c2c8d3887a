-- ===== src/Cleanup.antt =====
-- The durable queue that erases physical objects: storage/cleanup.py.
pub mod Rows
pub mod Queue
pub mod Enqueue
pub mod Workers
pub mod Worker
pub mod Rounds
pub mod Objects
pub mod Claims
mod Examples
