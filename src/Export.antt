-- ===== src/Export.antt =====
-- Notebooks as markdown (src/nb_export.go).
pub mod Fences
mod Samples
