-- ===== src/Crypto.antt =====
-- crates/crypto: the cryptography of the clients.
pub mod Primitives
pub mod Engine
pub mod Agreement
