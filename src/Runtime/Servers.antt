-- ===== src/Runtime/Servers.antt =====
-- runtime.go and storage_provider.go: the capability servers, the plugin set, and what GRPCServer
-- registers. The state of the grpc.Server is the sequence of the registrations it has received, by
-- the service names of the generated code.
pub mod Laws
use bloem_plugin_sdk.Base.{
  ℕ, String, Bool, true, false, not, ◌&&◌, ◌||◌, Option, none, some, List, [], ◌∷◌, ◌++◌, is_some,
  Result, ok, err, ◌>>=◌, if◌then◌else◌, lookup, insert,
}
use bloem_plugin_sdk.Messages.{PluginManifest, Struct}
use bloem_plugin_sdk.Runtime.Host.{HostState, set_broker}

pub record ConfigEntry : Type 0 where
  pub key : String
  pub value : Option Struct

-- `ConfigureFunc`; the context is left out, and an error is its text.
abbrev pub ConfigureFunc : Type 0
ConfigureFunc = List (Option ConfigEntry) → Option String

-- A server that is not a nil interface: a value of the plugin's own, with what the runtime can see
-- of its dynamic type, or the default Runtime server of ServeManifest.
pub data Server : Type 0 where
  -- the value's identity; a nil pointer; implements AuthProviderChecksServer; implements
  -- NetworkIdentityAuthServer
  own : ℕ → Bool → Bool → Bool → Server
  manifest_runtime : PluginManifest → Option ConfigureFunc → Server

abbrev pub is_nil_pointer : Server → Bool
is_nil_pointer (own id nil checks network) = nil
is_nil_pointer (manifest_runtime m f) = false

abbrev pub implements_checks : Server → Bool
implements_checks (own id nil checks network) = checks
implements_checks (manifest_runtime m f) = false

abbrev pub implements_network : Server → Bool
implements_network (own id nil checks network) = network
implements_network (manifest_runtime m f) = false

pub record CapabilityServers : Type 0 where
  pub runtime : Option Server
  pub metadata_provider : Option Server
  pub image_resolver : Option Server
  pub marker_provider : Option Server
  pub media_analyzer : Option Server
  pub scheduled_task : Option Server
  pub scan_source : Option Server
  pub request_router : Option Server
  pub event_consumer : Option Server
  pub auth_provider : Option Server
  pub http_routes : Option Server
  pub watch_sync_provider : Option Server
  pub network_access_provider : Option Server

pub record OptionalServices : Type 0 where
  pub watch_sync_device_authorization : Option Server
  pub auth_provider_checks : Option Server
  pub network_identity_auth : Option Server

abbrev pub no_services : OptionalServices
no_services = record {
  watch_sync_device_authorization = none;
  auth_provider_checks = none;
  network_identity_auth = none;
}

-- `isNilServer`
unfoldable pub is_nil_server : Option Server → Bool
is_nil_server none = true
is_nil_server (some s) = is_nil_pointer s

-- The type assertion of an interface value: a nil interface has no type.
abbrev pub assert_type : (Server → Bool) → Option Server → Option Server
assert_type implements none = none
assert_type implements (some s) = if implements s then some s else none

-- `resolveAuthService`, where `implements` tells whether a server's type has the service S
unfoldable pub resolve_auth_service :
    (Server → Bool) → Option Server → Option Server → Option Server
unfolding is_nil_server
resolve_auth_service implements auth_provider explicit =
    if not (is_nil_server explicit) then explicit else assert_type implements auth_provider

abbrev pub checks_service : String
checks_service = "silo.plugin.v1.AuthProviderChecks"

abbrev pub network_service : String
network_service = "silo.plugin.v1.NetworkIdentityAuth"

abbrev pub device_service : String
device_service = "silo.plugin.v1.WatchSyncDeviceAuthorizationService"

abbrev pub storage_service : String
storage_service = "bloem.plugin.v1.StorageProvider"

-- What `registerServers` offers to the gRPC server, in its order.
unfoldable pub offered : CapabilityServers → OptionalServices → List (String × Option Server)
unfolding resolve_auth_service
offered s o =
    ("silo.plugin.v1.Runtime", s.runtime)
    ∷ ("silo.plugin.v1.MetadataProvider", s.metadata_provider)
    ∷ ("silo.plugin.v1.ImageResolver", s.image_resolver)
    ∷ ("silo.plugin.v1.MarkerProvider", s.marker_provider)
    ∷ ("silo.plugin.v1.MediaAnalyzer", s.media_analyzer)
    ∷ ("silo.plugin.v1.ScheduledTask", s.scheduled_task)
    ∷ ("silo.plugin.v1.ScanSource", s.scan_source)
    ∷ ("silo.plugin.v1.RequestRouter", s.request_router)
    ∷ ("silo.plugin.v1.EventConsumer", s.event_consumer)
    ∷ ("silo.plugin.v1.AuthProvider", s.auth_provider)
    ∷ (
      checks_service,
      resolve_auth_service implements_checks s.auth_provider o.auth_provider_checks,
    )
    ∷ (
      network_service,
      resolve_auth_service implements_network s.auth_provider o.network_identity_auth,
    )
    ∷ ("silo.plugin.v1.HttpRoutes", s.http_routes)
    ∷ ("silo.plugin.v1.WatchSyncProvider", s.watch_sync_provider)
    ∷ ("silo.plugin.v1.NetworkAccessProvider", s.network_access_provider)
    ∷ []

-- `if server != nil { RegisterXServer(grpcServer, server) }`, one after the other
unfoldable pub register_each :
    List (String × Option Server) → List (String × Server) → List (String × Server)
register_each [] done = done
register_each ((name, none) ∷ rest) done = register_each rest done
register_each ((name, some s) ∷ rest) done = register_each rest (done ++ ((name, s) ∷ []))

pub data RegisterError : Type 0 where
  runtime_required : RegisterError

-- The plugin of a plugin set: `GRPCPlugin`, `grpcPluginWithOptionalServices`, or
-- `grpcPluginWithStorage` around one of them.
pub data Plugin : Type 0 where
  grpc_plugin : CapabilityServers → Plugin
  with_optional_services : CapabilityServers → OptionalServices → Plugin
  with_storage : Plugin → Server → Plugin

-- The process: the host state and the registrations that the gRPC server has received.
pub record Process (Broker Conn : Type 0) : Type 0 where
  pub host : HostState Broker Conn
  pub registered : List (String × Server)

module _ {Broker Conn : Type 0} where
  -- `registerServers`: the broker is set before the Runtime server is looked for.
  unfoldable pub register_servers :
      CapabilityServers
      → OptionalServices
      → Option Broker
      → Process Broker Conn
      → Process Broker Conn × Result RegisterError (Unit {0})
  unfolding set_broker register_each offered
  register_servers s o broker p =
      let bound = record p { host = set_broker broker p.host } in
      if not (is_some s.runtime)
      then (bound, err runtime_required)
      else (record bound { registered = register_each (offered s o) bound.registered }, ok tt)

  -- A registration after the wrapped GRPCServer, unless that failed.
  unfoldable pub and_register :
      String
      → Option Server
      → Process Broker Conn × Result RegisterError (Unit {0})
      → Process Broker Conn × Result RegisterError (Unit {0})
  unfolding register_each
  and_register name server (p, err e) = (p, err e)
  and_register name server (p, ok tt) =
      (record p { registered = register_each ((name, server) ∷ []) p.registered }, ok tt)

  -- `GRPCServer` of each kind of plugin
  unfoldable pub grpc_server :
      Plugin
      → Option Broker
      → Process Broker Conn
      → Process Broker Conn × Result RegisterError (Unit {0})
  unfolding register_servers and_register
  grpc_server (grpc_plugin s) b p = register_servers s no_services b p
  grpc_server (with_optional_services s o) b p =
      and_register device_service o.watch_sync_device_authorization (register_servers s o b p)
  grpc_server (with_storage inner storage) b p =
      and_register storage_service (some storage) (grpc_server inner b p)

-- `plugin.PluginSet`, a map from names to plugins
abbrev pub PluginSet : Type 0
PluginSet = List (String × Plugin)

abbrev pub plugin_set_name : String
plugin_set_name = "silo"

-- `DefaultPluginSet`
abbrev pub default_plugin_set : CapabilityServers → PluginSet
default_plugin_set s = (plugin_set_name, grpc_plugin s) ∷ []

-- `pluginSetWithOptionalServices`
unfoldable pub plugin_set_with_optional_services : CapabilityServers → OptionalServices → PluginSet
plugin_set_with_optional_services s o =
    if not (is_some o.watch_sync_device_authorization)
      && (not (is_some o.auth_provider_checks) && not (is_some o.network_identity_auth))
    then default_plugin_set s
    else (plugin_set_name, with_optional_services s o) ∷ []

-- `DefaultPluginSetWithWatchSyncDeviceAuthorization`
unfoldable pub default_plugin_set_with_device_authorization :
    CapabilityServers → Option Server → PluginSet
unfolding plugin_set_with_optional_services
default_plugin_set_with_device_authorization s device =
    plugin_set_with_optional_services s
      (record no_services { watch_sync_device_authorization = device })
