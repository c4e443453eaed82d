-- ===== src/Runtime/Tests.antt =====
-- The host connection, the registrations and ServeManifest at concrete inputs.
use bloem_plugin_sdk.Base.{
  ℕ, true, false, Option, none, some, List, [], ◌∷◌, ◌≡◌, refl, Result, ok, err, inl, inr, In,
  length, lookup, contains, IsDistinct, ◌==◌, ◌+◌, arith, if◌then◌else◌,
}
use bloem_plugin_sdk.Messages.{PluginManifest, CapabilityDescriptor, deref}
use bloem_plugin_sdk.Manifest.Loading.{Bytes}
use bloem_plugin_sdk.Manifest.Auth.{
  auth_provider_uses_network_identity, auth_provider_supports_connection_test,
}
use bloem_plugin_sdk.Manifest.Tests.{
  packages, system, manifest, stamped, is_loaded, network_sign_in,
}
use bloem_plugin_sdk.Runtime.Host.{
  HostState, HostCall, initial_host, dial_locked, host, sets_broker, sets_broker_id, gets_host, run,
}
use bloem_plugin_sdk.Runtime.Host.Laws.{
  IsAt, run-IsAt, gets, IsUnreachable, host-eq-none_iff, bind-gets,
}
use bloem_plugin_sdk.Runtime.Servers.{
  Server, own, CapabilityServers, Process, Plugin, plugin_set_name, resolve_auth_service,
  is_nil_server, grpc_server, checks_service, network_service,
}
use bloem_plugin_sdk.Runtime.Servers.Laws.{names}
use bloem_plugin_sdk.Runtime.Serving.{
  ServeManifestOption, no_options, apply_options, with_network_identity_auth, rules, ServeConfig,
  manifest_plugin_set, manifest_serve_config, serve_manifest_with_options,
}
use bloem_plugin_sdk.Runtime.Serving.Table.{services, IsSetUp, manifest_plugin_set-IsSetUp}
use bloem_plugin_sdk.Runtime.Serving.Startup.{IsServed, config_of, manifest_serve_config-eq-ok_iff}
use bloem_plugin_sdk.Runtime.Serving.Registered.{
  HasService, serve_config-network, serve_config-IsDistinct,
}
use bloem_plugin_sdk.Runtime.Serving.Manifests.{
  IsServedManifest, serve_manifest_with_options-eq-ok_iff,
}
use bloem_plugin_sdk.Runtime.Clients.{Client, new_client}
use bloem_plugin_sdk.Runtime.Clients.Laws.{AllReach, typed_clients_reach}
use bloem_plugin_sdk.Runtime.Serve.{prints, serve_manifest}
use bloem_plugin_sdk.Runtime.Serve.Laws.{serve_manifest-prints_iff}

-- A broker that is named by a number, fails the first dial, and then connects.
abbrev dial : ℕ → ℕ → ℕ → Option ℕ
dial b id n = if n == 0 then none else some (b + id)

abbrev second_broker : HostState ℕ ℕ
second_broker = record {
  broker = some 20;
  broker_id = 0;
  client = none;
  attempts = record { broker = 10; stream = 5; connected = false } ∷ [];
}

-- The first broker's stream is bound, a second broker arrives, and its stream is dialled twice.
abbrev schedule : List (HostCall dial)
schedule =
    sets_broker (some 10)
    ∷ sets_broker_id 5
    ∷ sets_broker (some 20)
    ∷ gets_host
    ∷ sets_broker_id 7
    ∷ gets_host
    ∷ []

run-IsAt_example : IsAt dial (some 20) 7 (run dial schedule initial_host)
run-IsAt_example = run-IsAt dial schedule

abbrev bound : HostState ℕ ℕ
bound = record second_broker { broker_id = 7 }

host-eq-none_iff_example : (second_broker.client ≡ none) × IsUnreachable dial second_broker
unfolding host dial_locked
host-eq-none_iff_example = (host-eq-none_iff dial second_broker).0 refl

bind-gets_example :
    ((host dial (run dial (sets_broker_id 7 ∷ gets dial 2) second_broker)).1 ≡ some 27)
    × (length (run dial (sets_broker_id 7 ∷ gets dial 2) second_broker).attempts ≡ 2)
bind-gets_example = bind-gets dial second_broker 20 7 27 2 refl (ground arith) refl

-- An auth server that implements the checks, and one of its own for the network mode.
abbrev auth_server : Server
auth_server = own 1 false true false

abbrev network_server : Server
network_server = own 2 false false true

abbrev servers : CapabilityServers
servers = record {
  runtime = none;
  metadata_provider = none;
  image_resolver = none;
  marker_provider = none;
  media_analyzer = none;
  scheduled_task = none;
  scan_source = none;
  request_router = none;
  event_consumer = none;
  auth_provider = some auth_server;
  http_routes = none;
  watch_sync_provider = none;
  network_access_provider = some (own 3 false false false);
}

abbrev options : List (Option ServeManifestOption)
options = none ∷ some (with_network_identity_auth (some network_server)) ∷ []

abbrev process : Process ℕ ℕ
process = record { host = initial_host; registered = [] }

abbrev with_runtime : CapabilityServers
with_runtime = record servers { runtime = some (own 4 false false false) }

-- A process that was bound for another broker before.
abbrev bound_process : Process ℕ ℕ
bound_process = record process { host = bound }

manifest_plugin_set-IsSetUp_example :
    (plugin : Plugin) × (lookup "silo" (manifest_plugin_set with_runtime no_options) ≡ some plugin)
    × ((grpc_server plugin (some 10) bound_process).1 ≡ ok tt)
    × IsSetUp
        (some 10)
        bound_process
        (services with_runtime no_options)
        (grpc_server plugin (some 10) bound_process).0
manifest_plugin_set-IsSetUp_example =
    manifest_plugin_set-IsSetUp (some 10) bound_process with_runtime (own 4 false false false)
      no_options refl

is_served : manifest_serve_config manifest servers options ≡ ok (config_of manifest servers options)
unfolding manifest_serve_config rules apply_options resolve_auth_service is_nil_server
    auth_provider_uses_network_identity auth_provider_supports_connection_test contains lookup
is_served = refl

manifest_serve_config-eq-ok_iff_example :
    ((d : Option CapabilityDescriptor)
      → In d manifest.capabilities
      → IsServed servers (apply_options options no_options) (deref d))
    × (config_of manifest servers options ≡ config_of manifest servers options)
manifest_serve_config-eq-ok_iff_example =
    (manifest_serve_config-eq-ok_iff manifest servers options
        (config_of manifest servers options)).0
      is_served

serve_config-network_example :
    (plugin : Plugin) × (lookup plugin_set_name (config_of manifest servers options).plugins
      ≡ some plugin)
    × ((grpc_server plugin (some 10) process).1 ≡ ok tt)
    × HasService checks_service (grpc_server plugin (some 10) process).0
    × HasService network_service (grpc_server plugin (some 10) process).0
unfolding auth_provider_uses_network_identity contains
serve_config-network_example =
    serve_config-network manifest servers options (some 10) process
      (config_of manifest servers options) (some network_sign_in) is_served (inr (inl refl)) refl

serve_config-IsDistinct_example :
    (plugin : Plugin) × (lookup plugin_set_name (config_of manifest servers options).plugins
      ≡ some plugin)
    × IsDistinct (names (grpc_server plugin (some 10) process).0.registered)
serve_config-IsDistinct_example =
    serve_config-IsDistinct manifest servers options (some 10) process
      (config_of manifest servers options) is_served refl

is_reached :
    serve_manifest_with_options packages system [] "1.3.0" servers options
    ≡ ok (config_of stamped servers options)
unfolding serve_manifest_with_options manifest_serve_config rules apply_options resolve_auth_service
    is_nil_server auth_provider_uses_network_identity auth_provider_supports_connection_test
    contains lookup
is_reached = rw is_loaded refl

serve_manifest_with_options-eq-ok_iff_example :
    IsServedManifest packages system [] "1.3.0" servers options (config_of stamped servers options)
serve_manifest_with_options-eq-ok_iff_example =
    (serve_manifest_with_options-eq-ok_iff packages system [] "1.3.0" servers options
        (config_of stamped servers options)).0
      is_reached

abbrev host_client : Client ℕ ℕ
host_client = new_client 3

typed_clients_reach_example :
    (plugin : Plugin) × (lookup "silo" (manifest_plugin_set with_runtime no_options) ≡ some plugin)
    × AllReach with_runtime no_options (some 10) process plugin host_client
typed_clients_reach_example =
    typed_clients_reach with_runtime no_options (some 10) process host_client
      (own 4 false false false) refl refl

-- The JSON of every manifest is one byte here.
abbrev marshal : Option PluginManifest → Result ℕ Bytes
marshal none = err 1
marshal (some m) = ok (0 ∷ [])

abbrev own_manifest : ℕ → Result ℕ (Option PluginManifest)
own_manifest id = err id

manifest_printed :
    serve_manifest marshal own_manifest packages system
      ("plugin" ∷ "manifest" ∷ [])
      []
      "1.3.0"
      servers
      options
    ≡ ok (prints (0 ∷ []))
unfolding serve_manifest
manifest_printed = rw is_reached refl

serve_manifest-prints_iff_example :
    (cfg : ServeConfig) × (served : IsServedManifest packages system [] "1.3.0" servers options cfg)
    × (marshal (some served.manifest) ≡ ok (0 ∷ []))
serve_manifest-prints_iff_example =
    (serve_manifest-prints_iff marshal own_manifest packages system [] "1.3.0" servers options
        ("plugin" ∷ "manifest" ∷ []) (0 ∷ []) refl).0
      manifest_printed
