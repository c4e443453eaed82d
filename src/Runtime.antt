-- ===== src/Runtime.antt =====
-- pkg/pluginsdk/runtime: the host connection, the registration of services, and ServeManifest.
pub mod Default
pub mod Host
pub mod Servers
pub mod Clients
pub mod Serve
pub mod Serving
mod Tests
