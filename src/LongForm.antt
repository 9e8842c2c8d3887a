-- ===== src/LongForm.antt =====
-- Long recordings: how long_form.py cuts a transcript into windows for the language model.
pub mod Tokens
pub mod Segments
pub mod Slices
pub mod Groups
pub mod Windows
pub mod Materialize
pub mod Partition
pub mod Pieces
pub mod Bounds
pub mod Coverage
pub mod Plans
pub mod Shown
mod Examples
pub mod Budget
