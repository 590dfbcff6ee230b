-- ===== src/Process.antt =====
-- The process package: process/*.go.
pub mod Worker
pub mod Ticking
pub mod Http
pub mod Grpc
pub mod Ports
pub mod Stopping
pub mod Serving
pub mod Remote
pub mod Hosting
pub mod Orderly
