-- ===== src/RuntimeHost.antt =====
-- pkg/pluginsdk/runtimehost: the client that a plugin calls its host with.
pub mod InstanceState
pub mod Discovery
pub mod HostInfo
pub mod Events
pub mod PluginCalls
pub mod Catalog
pub mod Streams
pub mod Tests
