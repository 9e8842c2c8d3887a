-- ===== src/Snapshots.antt =====
-- The immutable sources of a family book: book/relationship_semantics.py, book/truth_eligibility.py and
-- book/snapshot_validation.py, over the snapshot types of domain/book_models.py.
pub mod Relationships
pub mod Truth
pub mod Endpoints
pub mod Rows
pub mod Ids
pub mod Sets
pub mod Validation
pub mod Closed
pub mod Passing
pub mod Closure
pub mod Acceptance
pub mod Provenance
pub mod Examples
