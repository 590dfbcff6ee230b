-- ===== src/Examples.antt =====
-- The theorems at concrete inputs, and tests.
mod Toy
mod Services
mod Running
mod Configs
mod Logging
mod Parts
mod Booting
mod Tagging
mod Backends
mod Servers
mod Hosting
mod Announcer
