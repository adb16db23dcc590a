-- ===== src/Shared.antt =====
-- crates/shared/src/lib.rs: what clients and server exchange, by component.
pub mod Device
pub mod Messaging
pub mod Blob
pub mod User
pub mod Call
