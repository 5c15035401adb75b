-- ===== src/Core.antt =====
-- The crate `crates/tusher-core`: shared types, the messages of the wire protocol and its codec.
pub mod Types
pub mod Protocol
pub mod Keys
pub mod Identity
pub mod Codec
