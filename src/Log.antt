-- ===== src/Log.antt =====
-- The log package: log/*.go.
pub mod Message
pub mod Rollup
pub mod Burst
pub mod Replay
pub mod Journal
pub mod Trimming
pub mod Shim
pub mod Backends
pub mod Severities
pub mod Callers
pub mod Settings
pub mod Legal
pub mod Setup
pub mod Chosen
