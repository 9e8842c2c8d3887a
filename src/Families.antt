-- ===== src/Families.antt =====
-- Families, their members and invitations: storage/identity.py and identity/policy.py.
pub mod Rows
pub mod Members
pub mod Invitations
pub mod Schedules
pub mod Owners
pub mod Ownership
pub mod Acceptance
mod Examples
