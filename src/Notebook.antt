-- ===== src/Notebook.antt =====
-- The notebook document model (src/nb_doc.go): its types, its events, the fold.
pub mod Cells
pub mod Events
pub mod Fold
mod Samples
