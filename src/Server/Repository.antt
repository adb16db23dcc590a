-- ===== src/Server/Repository.antt =====
-- crates/server/src/repository: a module for each file, a function for each statement.
pub mod Users
pub mod Devices
pub mod Prekeys
pub mod Messages
pub mod AuthTokens
pub mod Blobs
pub mod RegistrationInvites
pub mod UserBlocks
pub mod Stats
