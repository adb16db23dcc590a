-- ===== src/Server.antt =====
-- crates/server: the HTTP server.
pub mod State
pub mod Monad
pub mod Library
pub mod Keeps
pub mod Statements
pub mod History
pub mod Preserved
pub mod WellFormed
pub mod Lasting
pub mod Repository
pub mod LoginRateLimit
pub mod Realtime
pub mod Auth
pub mod VersionGate
pub mod Services
pub mod Domain
pub mod Handlers
pub mod Undone
pub mod Redeeming
pub mod Handout
pub mod Logout
pub mod Delivery
pub mod Fetching
pub mod BlockRules
pub mod Throttle
pub mod Signals
pub mod Gate
pub mod BlobData
pub mod Presence
pub mod Invitations
pub mod Devices
pub mod Publishing
pub mod Access
pub mod Tokens
pub mod Login
pub mod Acking
pub mod Receipts
pub mod Calls
