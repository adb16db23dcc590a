-- ===== src/Client/Core/Uploads.antt =====
-- crates/client-core/src/core.rs: the chunks in which a file is uploaded.
