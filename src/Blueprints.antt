-- ===== src/Blueprints.antt =====
-- The plan of a book: book/blueprint_validation.py, over the blueprint types of domain/book_models.py.
pub mod Plans
pub mod Years
pub mod Validation
pub mod Repair
pub mod Shares
pub mod Numbering
pub mod Repaired
pub mod Soundness
pub mod Grounding
mod Examples
