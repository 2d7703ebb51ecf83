-- ===== src/Session.antt =====
-- A command line session shown as a notebook (src/nb_session.go, src/projection.go).
pub mod Part
pub mod Projector
pub mod Ingest
pub mod Lifecycle
pub mod Bookkeeping
pub mod Seen
pub mod Again
pub mod Line
pub mod Held
pub mod Closed
pub mod Adoption
pub mod Restart
mod Samples
