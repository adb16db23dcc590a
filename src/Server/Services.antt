-- ===== src/Server/Services.antt =====
-- crates/server/src/services. The stats logger only writes Repository.Stats to the log.
pub mod Messages
