-- ===== src/Runtime/Serving.antt =====
-- serve_manifest.go: the options of ServeManifest, the default Runtime server, and the checks of
-- the auth services at startup, up to the call of Serve.
pub mod Laws
pub mod Startup
pub mod Manifests
pub mod Registered
pub mod Table
use bloem_plugin_sdk.Base.{
  ℕ, String, Bool, true, false, not, ◌&&◌, Option, none, some, List, [], ◌∷◌, is_some, Result, ok,
  err, ◌>>=◌, ◌>>◌, fail_if, for_each, wrap, lookup, insert, if◌then◌else◌,
}
use bloem_plugin_sdk.Messages.{PluginManifest, CapabilityDescriptor, deref}
use bloem_plugin_sdk.Manifest.Packages.{Packages}
use bloem_plugin_sdk.Manifest.Auth.{
  auth_provider_uses_network_identity, auth_provider_supports_connection_test, auth_mode_network,
  auth_provider_connection_test_key,
}
use bloem_plugin_sdk.Manifest.Loading.{Bytes, System, LoadError, load_with_checksum}
use bloem_plugin_sdk.Runtime.Host.{HostState, set_broker_id}
use bloem_plugin_sdk.Runtime.Servers.{
  ConfigEntry, ConfigureFunc, Server, manifest_runtime, implements_checks, implements_network,
  CapabilityServers, OptionalServices, Plugin, PluginSet, plugin_set_name, with_storage,
  resolve_auth_service, plugin_set_with_optional_services,
}

pub record ServeManifestOptions : Type 0 where
  pub storage_provider : Option Server
  pub watch_sync_device_authorization : Option Server
  pub auth_provider_checks : Option Server
  pub network_identity_auth : Option Server
  pub configure : Option ConfigureFunc

-- the zero value of `serveManifestOptions`
abbrev pub no_options : ServeManifestOptions
no_options = record {
  storage_provider = none;
  watch_sync_device_authorization = none;
  auth_provider_checks = none;
  network_identity_auth = none;
  configure = none;
}

abbrev pub ServeManifestOption : Type 0
ServeManifestOption = ServeManifestOptions → ServeManifestOptions

abbrev pub with_storage_provider : Option Server → ServeManifestOption
with_storage_provider s o = record o { storage_provider = s }

abbrev pub with_watch_sync_device_authorization : Option Server → ServeManifestOption
with_watch_sync_device_authorization s o = record o { watch_sync_device_authorization = s }

abbrev pub with_auth_provider_checks : Option Server → ServeManifestOption
with_auth_provider_checks s o = record o { auth_provider_checks = s }

abbrev pub with_network_identity_auth : Option Server → ServeManifestOption
with_network_identity_auth s o = record o { network_identity_auth = s }

abbrev pub with_configure : Option ConfigureFunc → ServeManifestOption
with_configure f o = record o { configure = f }

-- The options in order, the nil ones skipped.
unfoldable pub apply_options :
    List (Option ServeManifestOption) → ServeManifestOptions → ServeManifestOptions
apply_options [] o = o
apply_options (none ∷ rest) o = apply_options rest o
apply_options (some f ∷ rest) o = apply_options rest (f o)

-- `manifestRuntime.Configure`: the error of the callback, or none.
unfoldable pub configure : Option ConfigureFunc → List (Option ConfigEntry) → Option String
configure none entries = none
configure (some f) entries = f entries

-- The entry of the set with a storage plugin around it. The set that this is for always has one.
unfoldable pub wrap_plugin : Server → Option Plugin → PluginSet → PluginSet
unfolding insert
wrap_plugin storage none set = set
wrap_plugin storage (some inner) set = insert plugin_set_name (with_storage inner storage) set

unfoldable pub replace_plugin : Option Server → PluginSet → PluginSet
unfolding lookup wrap_plugin
replace_plugin none set = set
replace_plugin (some storage) set = wrap_plugin storage (lookup plugin_set_name set) set

-- `manifestPluginSet`
unfoldable pub manifest_plugin_set : CapabilityServers → ServeManifestOptions → PluginSet
unfolding plugin_set_with_optional_services replace_plugin
manifest_plugin_set servers o = replace_plugin o.storage_provider (
    plugin_set_with_optional_services servers (record {
      watch_sync_device_authorization = o.watch_sync_device_authorization;
      auth_provider_checks = o.auth_provider_checks;
      network_identity_auth = o.network_identity_auth;
    }))

pub record ServeConfig : Type 0 where
  pub servers : CapabilityServers
  pub plugins : PluginSet

-- The capability, what it declares, and the service that is missing.
pub data ConfigError : Type 0 where
  not_registered : String → String → String → ConfigError

pub record Rule : Type 0 where
  pub registered : Bool
  pub declares : CapabilityDescriptor → Bool
  pub declaration : String
  pub service : String

unfoldable pub rules : Bool → Bool → List Rule
unfolding auth_provider_uses_network_identity auth_provider_supports_connection_test
rules has_checks has_network =
    (record {
      registered = has_checks;
      declares = auth_provider_supports_connection_test;
      declaration = auth_provider_connection_test_key;
      service = "AuthProviderChecks";
    })
    ∷ (record {
      registered = has_checks;
      declares = auth_provider_uses_network_identity;
      declaration = auth_mode_network;
      service = "AuthProviderChecks";
    })
    ∷ (record {
      registered = has_network;
      declares = auth_provider_uses_network_identity;
      declaration = auth_mode_network;
      service = "NetworkIdentityAuth";
    })
    ∷ []

abbrev pub check_declares : Rule → Option CapabilityDescriptor → Result ConfigError (Unit {0})
check_declares rule d =
    fail_if (rule.declares (deref d)) (not_registered (deref d).id rule.declaration rule.service)

abbrev pub check_rule : List (Option CapabilityDescriptor) → Rule → Result ConfigError (Unit {0})
check_rule capabilities rule =
    if rule.registered then ok tt else for_each (check_declares rule) capabilities

-- `manifestServeConfig`
unfoldable pub manifest_serve_config :
    PluginManifest
    → CapabilityServers
    → List (Option ServeManifestOption)
    → Result ConfigError ServeConfig
unfolding apply_options resolve_auth_service manifest_plugin_set rules
manifest_serve_config m servers options =
    let resolved = apply_options options no_options in
    let has_checks =
      resolve_auth_service implements_checks servers.auth_provider resolved.auth_provider_checks in
    let has_network =
      resolve_auth_service implements_network servers.auth_provider
        resolved.network_identity_auth in
    let served = record servers { runtime = some (manifest_runtime m resolved.configure) } in
    for_each (check_rule m.capabilities) (rules (is_some has_checks) (is_some has_network))
    >> ok (record { servers = served; plugins = manifest_plugin_set served resolved })

-- Why ServeManifestWithOptions panics.
pub data ServeError : Type 0 where
  not_loaded : LoadError → ServeError
  not_configured : ConfigError → ServeError

-- `ServeManifestWithOptions` up to its call of Serve: the configuration served, or the panic.
unfoldable pub serve_manifest_with_options :
    Packages
    → System
    → Bytes
    → String
    → CapabilityServers
    → List (Option ServeManifestOption)
    → Result ServeError ServeConfig
unfolding load_with_checksum manifest_serve_config
serve_manifest_with_options pkg sys bytes version servers options = do
  m ← wrap not_loaded (load_with_checksum pkg sys bytes version)
  wrap not_configured (manifest_serve_config m servers options)
