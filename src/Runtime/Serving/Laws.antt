-- ===== src/Runtime/Serving/Laws.antt =====
-- When ServeManifest accepts a manifest with its servers, and what it then serves.
use mathlib.Core.List.{append_assoc}
use bloem_plugin_sdk.Base.{
  String, true, Option, none, some, List, [], ◌∷◌, ◌++◌, is_some, Result, ok, ◌≡◌, refl, ap, ◌∙◌,
  subst, lookup, lookup-insert,
}
use bloem_plugin_sdk.Runtime.Host.{set_broker}
use bloem_plugin_sdk.Runtime.Servers.{
  Server, CapabilityServers, OptionalServices, Process, Plugin, RegisterError, grpc_plugin,
  with_optional_services, with_storage, and_register, no_services, PluginSet, plugin_set_name,
  offered, register_each, register_servers, grpc_server, plugin_set_with_optional_services,
  device_service, storage_service,
}
use bloem_plugin_sdk.Runtime.Servers.Laws.{register_each-append}
use bloem_plugin_sdk.Runtime.Serving.{
  ServeManifestOptions, manifest_plugin_set, replace_plugin, wrap_plugin,
}

-- The optional services that are not nil and everything that the plugin offers, by name.
abbrev pub services_of : ServeManifestOptions → OptionalServices
services_of o = record {
  watch_sync_device_authorization = o.watch_sync_device_authorization;
  auth_provider_checks = o.auth_provider_checks;
  network_identity_auth = o.network_identity_auth;
}

abbrev pub all_offered : CapabilityServers → ServeManifestOptions → List (String × Option Server)
all_offered s o =
    offered s (services_of o)
    ++ ((device_service, o.watch_sync_device_authorization)
        ∷ (storage_service, o.storage_provider)
        ∷ [])

module _ {Broker Conn : Type 0} (b : Option Broker) (p : Process Broker Conn) where
  -- A successful GRPCServer that sets the broker and then registers a list of offers in order.
  abbrev pub served :
      List (String × Option Server) → Process Broker Conn × Result RegisterError (Unit {0})
  served es =
      (record { host = set_broker b p.host; registered = register_each es p.registered }, ok tt)

  register_servers_lem :
      (s : CapabilityServers) (r : Server) (o : OptionalServices)
      → s.runtime ≡ some r
      → register_servers s o b p ≡ served (offered s o)
  unfolding register_servers
  register_servers_lem s r o e = let c : is_some s.runtime ≡ true = rw e refl in rw c refl

  and_register_lem :
      (name : String) (server : Option Server) (es : List (String × Option Server))
      → and_register name server (served es) ≡ served (es ++ ((name, server) ∷ []))
  unfolding and_register
  and_register_lem name server es =
      rw (register_each-append es ((name, server) ∷ []) p.registered) refl

  -- A plugin set whose plugin serves a list of offers.
  abbrev pub Serves : List (String × Option Server) → PluginSet → Type 0
  Serves es set =
      (plugin : Plugin) × (lookup plugin_set_name set ≡ some plugin)
      × (grpc_server plugin b p ≡ served es)

  plain-Serves :
      (s : CapabilityServers) (r : Server)
      → s.runtime ≡ some r
      → grpc_server (grpc_plugin s) b p
        ≡ served (offered s no_services ++ ((device_service, none) ∷ []))
  unfolding grpc_server
  plain-Serves s r e =
      register_servers_lem s r no_services e
      ∙ and_register_lem device_service none (offered s no_services)

  with_optional-Serves :
      (s : CapabilityServers) (r : Server) (o : OptionalServices)
      → s.runtime ≡ some r
      → grpc_server (with_optional_services s o) b p
        ≡ served (offered s o ++ ((device_service, o.watch_sync_device_authorization) ∷ []))
  unfolding grpc_server
  with_optional-Serves s r o e =
      ap (and_register device_service o.watch_sync_device_authorization)
        (register_servers_lem s r o e)
      ∙ and_register_lem device_service o.watch_sync_device_authorization (offered s o)

  optional-Serves :
      (s : CapabilityServers) (r : Server) (device checks network : Option Server)
      → s.runtime ≡ some r
      → let o : OptionalServices = record {
        watch_sync_device_authorization = device;
        auth_provider_checks = checks;
        network_identity_auth = network;
      } in
        Serves
          (offered s o ++ ((device_service, device) ∷ []))
          (plugin_set_with_optional_services s o)
  unfolding plugin_set_with_optional_services lookup
  optional-Serves s r none none none e = (_, refl, plain-Serves s r e)
  optional-Serves s r none none (some n) e = (_, refl, with_optional-Serves s r _ e)
  optional-Serves s r none (some c) n e = (_, refl, with_optional-Serves s r _ e)
  optional-Serves s r (some d) c n e = (_, refl, with_optional-Serves s r _ e)

  replace-Serves :
      (storage : Option Server) (es : List (String × Option Server)) (set : PluginSet)
      → Serves es set
      → Serves (es ++ ((storage_service, storage) ∷ [])) (replace_plugin storage set)
  unfolding grpc_server replace_plugin wrap_plugin
  replace-Serves none es set (q, f, e) = (q, f, e ∙ and_register_lem storage_service none es)
  replace-Serves (some t) es set (q, f, e) = (
    with_storage q t,
    ap (λ o. lookup plugin_set_name (wrap_plugin t o set)) f
        ∙ lookup-insert plugin_set_name plugin_set_name (with_storage q t) set,
    ap (and_register storage_service (some t)) e ∙ and_register_lem storage_service (some t) es,
  )

  pub manifest_plugin_set-Serves :
      (s : CapabilityServers) (r : Server) (o : ServeManifestOptions)
      → s.runtime ≡ some r
      → Serves (all_offered s o) (manifest_plugin_set s o)
  unfolding manifest_plugin_set
  manifest_plugin_set-Serves s r o e =
      subst (λ es. Serves es (manifest_plugin_set s o))
        (append_assoc (offered s (services_of o)) _ _)
        (replace-Serves o.storage_provider _ _ (
          optional-Serves s r o.watch_sync_device_authorization o.auth_provider_checks
            o.network_identity_auth e))
