-- ===== src/Conflicts.antt =====
-- Conflicts between the claims of a family archive: storage/conflict_resolution.py, and the reading of a
-- relationship claim from storage/archive.py.
pub mod Rows
pub mod Claims
pub mod Graph
pub mod Service
pub mod Reconcile
pub mod Edges
pub mod Rebuilt
pub mod Judgement
pub mod History
pub mod Schedules
pub mod Ingestion
pub mod Audit
mod Examples
