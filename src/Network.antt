-- ===== src/Network.antt =====
-- The crate `crates/tusher-network`: addresses and discovery, the handshake and the queues of a
-- connection, pairing, and the manager of the connections.
pub mod Transport
pub mod Discovery
pub mod Connection
pub mod Pairing
pub mod Manager
