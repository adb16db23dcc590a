-- ===== src/Server/Domain.antt =====
-- crates/server/src/domain: a module for each file; realtime.rs is Realtime and Session, and user.rs
-- is User, Registration and Blocking.
pub mod Registration
pub mod User
pub mod Blocking
pub mod Device
pub mod Messaging
pub mod BlobStore
pub mod CallSignaling
pub mod Session
