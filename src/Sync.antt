-- ===== src/Sync.antt =====
-- The crate `crates/tusher-sync`: the watcher of the shared folders, and the coordinator that keeps
-- catalog, files and peers in step.
pub mod Watcher
pub mod State
pub mod Messages
pub mod Reconcile
pub mod Local
