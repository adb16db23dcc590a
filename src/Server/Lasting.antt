-- ===== src/Server/Lasting.antt =====
-- Marks on rows over histories of requests: of prekeys, tokens, invites and messages.
pub mod Prekeys
pub mod Tokens
pub mod Invites
pub mod Messages
