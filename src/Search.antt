-- ===== src/Search.antt =====
-- Searching the notebooks (src/nb_search.go).
pub mod Matching
