-- ===== src/Runner/Watch.antt =====
-- The watch of runner.go: its loop, and what it does about stopping and about errors.
pub mod Lasting
pub mod Loop
pub mod Stopping
pub mod Errors
pub mod Shutdown
