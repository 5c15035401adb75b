-- ===== src/Metadata.antt =====
-- The crate `crates/tusher-metadata`: the catalog of files, the log of events, reconciliation.
pub mod Models
pub mod Tables
pub mod Db
pub mod Reconciler
pub mod Service
