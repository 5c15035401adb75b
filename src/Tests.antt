-- ===== src/Tests.antt =====
-- Runs of the model at concrete data, and the theorems at inputs that meet their hypotheses.
pub mod Codec
pub mod Catalog
pub mod Manifest
pub mod Transfer
pub mod Delivery
pub mod Sync
pub mod Network
pub mod Programs
pub mod Commands
