-- ===== src/Policy.antt =====
-- The permission engine (src/policy.go).
pub mod Rule
pub mod Command
pub mod Decide
pub mod Always
pub mod File
pub mod Question
mod Samples
