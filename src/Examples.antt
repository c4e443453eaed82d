-- ===== src/Examples.antt =====
-- examples/: the programs of the repository that run as plugins.
pub mod ScanSource
pub mod NetworkAccess
pub mod Startup
pub mod Storage
pub mod Ping
mod Tests
