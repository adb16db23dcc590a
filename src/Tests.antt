-- ===== src/Tests.antt =====
-- Runs at concrete inputs, against a library of stand-ins.
pub mod World
mod Accounts
mod Messages
mod Blocks
mod Signals
mod Sessions
mod Blobs
mod Requests
pub mod Crypto
mod Devices
mod Logins
mod Receipts
mod Calls
pub mod Clients
mod Exchanges
mod Stores
mod Transfers
mod Chats
