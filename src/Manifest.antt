-- ===== src/Manifest.antt =====
-- pkg/pluginsdk/manifest: loading and validating a plugin manifest.
pub mod Packages
pub mod Presentation
pub mod WatchSync
pub mod NetworkAccess
pub mod RequestRouter
pub mod Auth
pub mod ConfigForm
pub mod Validation
pub mod Loading
pub mod Tests
