-- ===== src/Client.antt =====
-- crates/client-core: what a client keeps, sends and reads.
pub mod Types
pub mod Library
pub mod Storage
pub mod Vault
pub mod KeyStore
pub mod SessionStore
pub mod Ratchet
pub mod Act
pub mod Network
pub mod Transport
pub mod Core
