-- ===== src/Books.antt =====
-- The storage of family books: domain/book_models.py and storage/book.py.
pub mod Rows
pub mod Jobs
pub mod Guard
pub mod Repository
pub mod Chapters
pub mod Artifacts
pub mod Deletion
pub mod Fence
pub mod Workers
pub mod Effects
pub mod Attempts
pub mod Endings
pub mod Stubs
pub mod Drafts
pub mod Saves
pub mod Erasure
pub mod Claims
mod Examples
