-- ===== src/Budget.antt =====
-- The daily budget of AI costs: mura/cost_guards.py and the reservations of storage/ai_usage.py.
pub mod Reservations
pub mod Admission
pub mod Settlement
mod Examples
