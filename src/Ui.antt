-- ===== src/Ui.antt =====
-- crates/client-ui: what the application keeps of chats, and what it does with what arrives.
pub mod Localization
pub mod History
pub mod State
pub mod Identity
pub mod Messages
pub mod Incoming
pub mod Sync
pub mod Workers
pub mod Pins
pub mod Trust
pub mod Copies
pub mod Once
pub mod Bubble
pub mod Settings
pub mod Updater
