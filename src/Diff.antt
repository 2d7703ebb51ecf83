-- ===== src/Diff.antt =====
-- The unified diff (src/diff.go): lines, the edit script and the hunks.
pub mod Lines
pub mod Script
pub mod Hunks
mod Samples
