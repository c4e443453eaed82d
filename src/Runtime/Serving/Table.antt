-- ===== src/Runtime/Serving/Table.antt =====
-- The services of runtime.go, serve_manifest.go and storage_provider.go as one table, and the
-- registrations of the plugin that ServeManifest serves read off it.
use mathlib.Core.List.{append-nil, append_assoc}
use bloem_plugin_sdk.Base.{
  String, Bool, true, false, Option, none, some, List, [], ◌∷◌, ◌++◌, ok, ◌≡◌, refl, sym, ap, ◌∙◌,
  subst, lookup, if◌then◌else◌,
}
use bloem_plugin_sdk.Runtime.Host.{set_broker}
use bloem_plugin_sdk.Runtime.Servers.{
  Server, own, manifest_runtime, implements_checks, implements_network, CapabilityServers, Process,
  Plugin, resolve_auth_service, is_nil_server, offered, register_each, grpc_server,
}
use bloem_plugin_sdk.Runtime.Serving.{ServeManifestOptions, manifest_plugin_set}
use bloem_plugin_sdk.Runtime.Serving.Laws.{all_offered, manifest_plugin_set-Serves}

abbrev if_implements : (Server → Bool) → Option Server → Option Server
if_implements implements none = none
if_implements implements (some t) = if implements t then some t else none

-- The server of an auth service: the one that is given, unless that is nil or a nil pointer, and
-- otherwise the AuthProvider server, if it implements the service.
abbrev pub chosen : (Server → Bool) → Option Server → Option Server → Option Server
chosen implements provider (some (own id false checks network)) = some (own id false checks network)
chosen implements provider (some (own id true checks network)) = if_implements implements provider
chosen implements provider (some (manifest_runtime m f)) = some (manifest_runtime m f)
chosen implements provider none = if_implements implements provider

abbrev table :
    CapabilityServers
    → ServeManifestOptions
    → Option Server
    → Option Server
    → List (String × Option Server)
table s o checks network =
    ("silo.plugin.v1.Runtime", s.runtime)
    ∷ ("silo.plugin.v1.MetadataProvider", s.metadata_provider)
    ∷ ("silo.plugin.v1.ImageResolver", s.image_resolver)
    ∷ ("silo.plugin.v1.MarkerProvider", s.marker_provider)
    ∷ ("silo.plugin.v1.MediaAnalyzer", s.media_analyzer)
    ∷ ("silo.plugin.v1.ScheduledTask", s.scheduled_task)
    ∷ ("silo.plugin.v1.ScanSource", s.scan_source)
    ∷ ("silo.plugin.v1.RequestRouter", s.request_router)
    ∷ ("silo.plugin.v1.EventConsumer", s.event_consumer)
    ∷ ("silo.plugin.v1.AuthProvider", s.auth_provider)
    ∷ ("silo.plugin.v1.AuthProviderChecks", checks)
    ∷ ("silo.plugin.v1.NetworkIdentityAuth", network)
    ∷ ("silo.plugin.v1.HttpRoutes", s.http_routes)
    ∷ ("silo.plugin.v1.WatchSyncProvider", s.watch_sync_provider)
    ∷ ("silo.plugin.v1.NetworkAccessProvider", s.network_access_provider)
    ∷ ("silo.plugin.v1.WatchSyncDeviceAuthorizationService", o.watch_sync_device_authorization)
    ∷ ("bloem.plugin.v1.StorageProvider", o.storage_provider)
    ∷ []

-- every service with the server that a plugin gives for it
abbrev pub services : CapabilityServers → ServeManifestOptions → List (String × Option Server)
services s o =
    table s o (chosen implements_checks s.auth_provider o.auth_provider_checks)
      (chosen implements_network s.auth_provider o.network_identity_auth)

abbrev pub present : List (String × Option Server) → List (String × Server)
present [] = []
present ((name, none) ∷ rows) = present rows
present ((name, some t) ∷ rows) = (name, t) ∷ present rows

assert_type_lem :
    (implements : Server → Bool) (provider : Option Server)
    → resolve_auth_service implements provider none ≡ if_implements implements provider
unfolding resolve_auth_service is_nil_server
assert_type_lem implements none = refl
assert_type_lem implements (some t) = refl

resolve_auth_service_lem :
    (implements : Server → Bool) (provider explicit : Option Server)
    → resolve_auth_service implements provider explicit ≡ chosen implements provider explicit
unfolding resolve_auth_service is_nil_server
resolve_auth_service_lem implements provider none = assert_type_lem implements provider
resolve_auth_service_lem implements provider (some (own id false checks network)) = refl
resolve_auth_service_lem implements provider (some (own id true checks network)) =
    assert_type_lem implements provider
resolve_auth_service_lem implements provider (some (manifest_runtime m f)) = refl

pub all_offered_lem :
    (s : CapabilityServers) (o : ServeManifestOptions) → all_offered s o ≡ services s o
unfolding offered
all_offered_lem s o =
    ap
      (λ checks.
        table s o checks
          (resolve_auth_service implements_network s.auth_provider o.network_identity_auth))
      (resolve_auth_service_lem implements_checks s.auth_provider o.auth_provider_checks)
    ∙ ap (table s o (chosen implements_checks s.auth_provider o.auth_provider_checks))
        (resolve_auth_service_lem implements_network s.auth_provider o.network_identity_auth)

register_each_lem :
    (rows : List (String × Option Server)) (done : List (String × Server))
    → register_each rows done ≡ done ++ present rows
unfolding register_each
register_each_lem [] done = sym (append-nil done)
register_each_lem ((name, none) ∷ rows) done = register_each_lem rows done
register_each_lem ((name, some t) ∷ rows) done =
    register_each_lem rows (done ++ ((name, t) ∷ [])) ∙ append_assoc done ((name, t) ∷ []) _

module _ {Broker Conn : Type 0} (b : Option Broker) (p : Process Broker Conn) where
  -- A process whose gRPC server has been set up from another one: the broker is new, no stream is
  -- bound and no client cached, nothing has been dialled, and the rows that have a server are
  -- registered behind what was there.
  pub record IsSetUp (rows : List (String × Option Server)) (p' : Process Broker Conn)
      : Type 0 where
    pub broker : p'.host.broker ≡ b
    pub unbound : p'.host.broker_id ≡ 0
    pub uncached : p'.host.client ≡ none
    pub undialled : p'.host.attempts ≡ p.host.attempts
    pub registered : p'.registered ≡ p.registered ++ present rows

  -- With a Runtime server, the plugin set of ServeManifest has a plugin under the name "silo" whose
  -- GRPCServer succeeds, sets the broker in place of the old one with its stream and client, dials
  -- nothing, and registers behind what was registered, in the order of the table of 17 services,
  -- each service that the plugin gives a server for.
  pub manifest_plugin_set-IsSetUp :
      (s : CapabilityServers) (r : Server) (o : ServeManifestOptions)
      → s.runtime ≡ some r
      → (plugin : Plugin) × (lookup "silo" (manifest_plugin_set s o) ≡ some plugin)
        × ((grpc_server plugin b p).1 ≡ ok tt)
        × IsSetUp (services s o) (grpc_server plugin b p).0
  unfolding set_broker
  manifest_plugin_set-IsSetUp s r o e =
      let (plugin, found, is) = manifest_plugin_set-Serves b p s r o e in
      (
        plugin,
        found,
        ap (λ r. r.1) is,
        subst (λ r. IsSetUp (services s o) r.0) (sym is)
            (record {
              broker = refl;
              unbound = refl;
              uncached = refl;
              undialled = refl;
              registered =
                  register_each_lem (all_offered s o) p.registered
                  ∙ ap (λ rows. p.registered ++ present rows) (all_offered_lem s o);
            }),
      )
