-- ===== src/Tools.antt =====
-- The built-in tools (src/tools_fs.go, src/tools_bash.go) and what they share (src/harness.go).
pub mod PathMatch
pub mod CleanPath
pub mod Glob
pub mod EditPlan
pub mod ReadLines
mod Samples
