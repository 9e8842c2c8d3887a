-- ===== src/Quotas.antt =====
-- The product quotas of mura/quotas.py, checked before a book or a recording is created.
pub mod Checks
pub mod Books
pub mod Recordings
mod Examples
