-- ===== src/Server/Preserved.antt =====
-- From the statements to the requests: predicates of the database, handler by handler.
pub mod Users
pub mod Devices
pub mod Messages
pub mod Requests
