-- ===== src/Discovery.antt =====
-- The discovery package: discovery/*.go.
pub mod Client
pub mod Accepted
pub mod Init
pub mod Announcing
