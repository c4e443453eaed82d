-- ===== src/Runtime/Serving/Registered.antt =====
-- The services that are registered once the startup checks have passed.

use bloem_plugin_sdk.Base.{
  String, true, Option, none, some, List, [], is_some, ok, ◌≡◌, refl, sym, ap, subst, inl, inr, In,
  IsDistinct, lookup,
}
use bloem_plugin_sdk.Messages.{PluginManifest, CapabilityDescriptor, deref}
use bloem_plugin_sdk.Manifest.Auth.{
  auth_provider_uses_network_identity, auth_provider_supports_connection_test,
}
use bloem_plugin_sdk.Runtime.Servers.{
  Server, manifest_runtime, CapabilityServers, Process, Plugin, plugin_set_name, offered,
  register_each, grpc_server, checks_service, network_service,
}
use bloem_plugin_sdk.Runtime.Servers.Laws.{
  registered_iff, names, all_different, IsDistinct-of_all_different, register_each-IsDistinct,
}
use bloem_plugin_sdk.Runtime.Serving.{
  ServeManifestOption, ServeConfig, no_options, apply_options, manifest_serve_config,
}
use bloem_plugin_sdk.Runtime.Serving.Laws.{served, Serves, all_offered, manifest_plugin_set-Serves}
use bloem_plugin_sdk.Runtime.Serving.Startup.{
  checks_server, network_server, config_of, manifest_serve_config-eq-ok_iff,
}

-- The gRPC server has been given a server of this service.
abbrev pub HasService : {Broker Conn : Type 0} → String → Process Broker Conn → Type 0
HasService name p = (t : Server) × In (name, t) p.registered

module _ (m : PluginManifest) (s : CapabilityServers)
    (options : List (Option ServeManifestOption)) where
  -- A service whose server is not nil is among the offers.
  offers_checks :
      (t : Server)
      → checks_server s (apply_options options no_options) ≡ some t
      → In
          (checks_service, some t)
          (all_offered (config_of m s options).servers (apply_options options no_options))
  unfolding offered
  offers_checks t e = inr (
      inr (
        inr
          (inr (inr (inr (inr (inr (inr (inr (inl (ap (λ o. (checks_service, o)) (sym e))))))))))))

  offers_network :
      (t : Server)
      → network_server s (apply_options options no_options) ≡ some t
      → In
          (network_service, some t)
          (all_offered (config_of m s options).servers (apply_options options no_options))
  unfolding offered
  offers_network t e = inr (
      inr (
        inr (
          inr (
            inr
              (inr (inr (inr (inr (inr (inr (inl (ap (λ o. (network_service, o)) (sym e)))))))))))))

  offers_differ :
      all_different
        (names (all_offered (config_of m s options).servers (apply_options options no_options)))
      ≡ true
  unfolding offered all_different
  offers_differ = refl

module _ (m : PluginManifest) (s : CapabilityServers) (options : List (Option ServeManifestOption))
    {Broker Conn : Type 0} (b : Option Broker) (p : Process Broker Conn) where
  -- The plugin of the served set, and what its GRPCServer does with all that is offered.
  plugin_of_config :
      (cfg : ServeConfig)
      → manifest_serve_config m s options ≡ ok cfg
      → Serves b p
          (all_offered (config_of m s options).servers (apply_options options no_options))
          cfg.plugins
  plugin_of_config cfg h =
      subst
        (λ (c : ServeConfig).
          Serves b p
            (all_offered (config_of m s options).servers (apply_options options no_options))
            c.plugins)
        (((manifest_serve_config-eq-ok_iff m s options cfg).0 h).1)
        (manifest_plugin_set-Serves b p (config_of m s options).servers
          (manifest_runtime m (apply_options options no_options).configure)
          (apply_options options no_options) refl)

  registers :
      (name : String) (es : List (String × Option Server)) (o : Option Server)
      → is_some o ≡ true
      → ((t : Server) → o ≡ some t → In (name, some t) es)
      → HasService name (served b p es).0
  registers name es none h f = cc
  registers name es (some t) h f = (t, (registered_iff es p.registered name t).1 (inr (f t refl)))

  -- When the startup checks pass and the manifest has a capability of the network mode, the plugin
  -- of the set that is served registers without an error, and both an AuthProviderChecks and a
  -- NetworkIdentityAuth server are registered then.
  pub serve_config-network :
      (cfg : ServeConfig) (d : Option CapabilityDescriptor)
      → manifest_serve_config m s options ≡ ok cfg
      → In d m.capabilities
      → auth_provider_uses_network_identity (deref d) ≡ true
      → (plugin : Plugin) × (lookup plugin_set_name cfg.plugins ≡ some plugin)
        × ((grpc_server plugin b p).1 ≡ ok tt)
        × (HasService checks_service (grpc_server plugin b p).0)
        × (HasService network_service (grpc_server plugin b p).0)
  serve_config-network cfg d h i n =
      let (plugin, found, e) = plugin_of_config cfg h in
      let needs = ((manifest_serve_config-eq-ok_iff m s options cfg).0 h).0 d i in
      (
        plugin,
        found,
        ap (λ r. r.1) e,
        subst (λ r. HasService checks_service r.0) (sym e)
            (registers checks_service _ _ (needs.checked n) (offers_checks m s options)),
        subst (λ r. HasService network_service r.0) (sym e)
            (registers network_service _ _ (needs.identified n) (offers_network m s options)),
      )

  -- When the startup checks pass and the manifest has a capability that declares a connection test,
  -- the plugin of the set that is served registers without an error, and an AuthProviderChecks
  -- server is registered then.
  pub serve_config-connection_test :
      (cfg : ServeConfig) (d : Option CapabilityDescriptor)
      → manifest_serve_config m s options ≡ ok cfg
      → In d m.capabilities
      → auth_provider_supports_connection_test (deref d) ≡ true
      → (plugin : Plugin) × (lookup plugin_set_name cfg.plugins ≡ some plugin)
        × ((grpc_server plugin b p).1 ≡ ok tt)
        × (HasService checks_service (grpc_server plugin b p).0)
  serve_config-connection_test cfg d h i n =
      let (plugin, found, e) = plugin_of_config cfg h in
      let needs = ((manifest_serve_config-eq-ok_iff m s options cfg).0 h).0 d i in
      (
        plugin,
        found,
        ap (λ r. r.1) e,
        subst (λ r. HasService checks_service r.0) (sym e)
            (registers checks_service _ _ (needs.tested n) (offers_checks m s options)),
      )

  -- When the startup checks pass, the plugin of the set that is served gives a gRPC server that has
  -- no service yet each service name at most once (the gRPC library aborts at a second one).
  pub serve_config-IsDistinct :
      (cfg : ServeConfig)
      → manifest_serve_config m s options ≡ ok cfg
      → p.registered ≡ []
      → (plugin : Plugin) × (lookup plugin_set_name cfg.plugins ≡ some plugin)
        × IsDistinct (names (grpc_server plugin b p).0.registered)
  serve_config-IsDistinct cfg h z =
      let (plugin, found, e) = plugin_of_config cfg h in
      (
        plugin,
        found,
        subst (λ r. IsDistinct (names r.0.registered)) (sym e)
            (subst
              (λ done. IsDistinct (
                names (
                  register_each
                    (all_offered (config_of m s options).servers (apply_options options no_options))
                    done)))
              (sym z)
              (register_each-IsDistinct _ []
                (IsDistinct-of_all_different _ (offers_differ m s options)))),
      )
