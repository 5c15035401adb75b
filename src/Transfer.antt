-- ===== src/Transfer.antt =====
-- The crate `crates/tusher-transfer`: files sent in chunks, staged by the receiver and moved to
-- their place once their hash is verified.
pub mod Hash
pub mod Disk
pub mod State
pub mod Paths
pub mod Receiver
pub mod Service
pub mod Sender
