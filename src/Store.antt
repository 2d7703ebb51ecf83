-- ===== src/Store.antt =====
-- A notebook's store (src/nb_store.go): the log file, the fold in memory and the snapshot.
pub mod Log
pub mod NotebookStore
pub mod Live
pub mod Runs
mod Samples
