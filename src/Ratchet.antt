-- ===== src/Ratchet.antt =====
-- ratchet: the sessions of ECIES-X25519-AEAD-Ratchet.
pub mod Payload
pub mod Builder
pub mod Session
pub mod Manager
mod Tests
