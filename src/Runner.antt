-- ===== src/Runner.antt =====
-- runner.go and meta.go.
pub mod Meta
pub mod Registry
pub mod World
pub mod Startup
pub mod Watch
pub mod Calls
pub mod Order
pub mod Count
pub mod Priorities
pub mod Sorting
pub mod Registered
pub mod Capacity
pub mod Keeping
pub mod Ready
pub mod Careful
pub mod Returns
