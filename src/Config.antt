-- ===== src/Config.antt =====
-- config.go.
pub mod Registry
pub mod Json
pub mod Loading
pub mod Fetching
pub mod Dumping
pub mod Masking
pub mod Keys
pub mod Ordering
pub mod Quoting
pub mod Fields
pub mod Copying
