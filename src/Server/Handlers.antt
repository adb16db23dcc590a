-- ===== src/Server/Handlers.antt =====
-- crates/server/src/handlers: a module for each file; Health is health.rs and ws.rs.
pub mod User
pub mod Device
pub mod Messaging
pub mod CallSignaling
pub mod Blob
pub mod Health
pub mod Router
