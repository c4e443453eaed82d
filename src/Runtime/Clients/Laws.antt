-- ===== src/Runtime/Clients/Laws.antt =====
-- Which of the plugin's servers a typed client of the host calls.
use bloem_plugin_sdk.Base.{
  if_same, String, Bool, true, false, Option, none, some, List, [], ◌∷◌, ◌++◌, str_eq, lookup,
  Result, if◌then◌else◌, ◌≡◌, refl, ap, ◌∙◌, Bool-cases, inl, inr, sym,
}
use bloem_plugin_sdk.Runtime.Servers.{
  Server, CapabilityServers, Process, Plugin, RegisterError, grpc_server, register_each,
  implements_checks, implements_network,
}
use bloem_plugin_sdk.Runtime.Serving.{ServeManifestOptions, manifest_plugin_set}
use bloem_plugin_sdk.Runtime.Serving.Laws.{all_offered, manifest_plugin_set-Serves}
use bloem_plugin_sdk.Runtime.Serving.Table.{chosen, services, all_offered_lem}
use bloem_plugin_sdk.Runtime.Clients.{
  Client, TypedClient, runtime_client, metadata_provider_client, image_resolver_client,
  marker_provider_client, media_analyzer_client, scheduled_task_client, scan_source_client,
  request_router_client, event_consumer_client, auth_provider_client, auth_provider_checks_client,
  network_identity_auth_client, http_routes_client, watch_sync_provider_client,
  device_authorization_client, network_access_provider_client,
}

abbrev or_else : {A : Type 0} → Option A → Option A → Option A
or_else none other = other
or_else (some a) other = some a

abbrev first_offer : {A : Type 0} → String → List (String × Option A) → Option A
first_offer key [] = none
first_offer key ((name, o) ∷ rest) =
    if str_eq name key then or_else o (first_offer key rest) else first_offer key rest

lookup-append_one :
    {A : Type 0} (key name : String) (a : A) (done : List (String × A))
    → lookup key (done ++ ((name, a) ∷ []))
      ≡ or_else (lookup key done) (if str_eq name key then some a else none)
unfolding lookup
lookup-append_one key name a [] = refl
lookup-append_one key name a ((k, b) ∷ done) = elim (Bool-cases (str_eq k key)) [
  | inl e ↦ rw e refl
  | inr e ↦ rw e (lookup-append_one key name a done)
]

or_else_assoc : {A : Type 0} (o p q : Option A) → or_else (or_else o p) q ≡ or_else o (or_else p q)
or_else_assoc none p q = refl
or_else_assoc (some a) p q = refl

or_else-none : {A : Type 0} (o : Option A) → or_else o none ≡ o
or_else-none none = refl
or_else-none (some a) = refl

offer_step :
    {A : Type 0} (b : Bool) (a : A) (rest : Option A)
    → or_else (if b then some a else none) rest ≡ (if b then some a else rest)
offer_step true a rest = refl
offer_step false a rest = refl

lookup-register_each :
    (key : String) (offers : List (String × Option Server)) (done : List (String × Server))
    → lookup key (register_each offers done) ≡ or_else (lookup key done) (first_offer key offers)
unfolding register_each
lookup-register_each key [] done = sym (or_else-none (lookup key done))
lookup-register_each key ((name, none) ∷ rest) done =
    lookup-register_each key rest done
    ∙ ap (or_else (lookup key done)) (if_same (str_eq name key) (first_offer key rest))
lookup-register_each key ((name, some s) ∷ rest) done =
    lookup-register_each key rest (done ++ ((name, s) ∷ []))
    ∙ ap (λ o. or_else o (first_offer key rest)) (lookup-append_one key name s done)
    ∙ or_else_assoc (lookup key done) _ (first_offer key rest)
    ∙ ap (or_else (lookup key done)) (offer_step (str_eq name key) s (first_offer key rest))

module _ {Broker HostConn : Type 0} (s : CapabilityServers) (o : ServeManifestOptions)
    (b : Option Broker) (p : Process Broker HostConn) where
  -- The server that a typed client's calls reach among the registrations of the plugin's process.
  abbrev pub reached : {Conn : Type 0} → Plugin → TypedClient Conn → Option Server
  reached plugin t = lookup t.service (grpc_server plugin b p).0.registered

  -- Each typed client reaches the server of its service, or none if there is none.
  abbrev pub AllReach : {Conn : Type 0} → Plugin → Client Conn Broker → Type 0
  AllReach plugin c =
      (reached plugin (runtime_client c) ≡ s.runtime)
      × (reached plugin (metadata_provider_client c) ≡ s.metadata_provider)
      × (reached plugin (image_resolver_client c) ≡ s.image_resolver)
      × (reached plugin (marker_provider_client c) ≡ s.marker_provider)
      × (reached plugin (media_analyzer_client c) ≡ s.media_analyzer)
      × (reached plugin (scheduled_task_client c) ≡ s.scheduled_task)
      × (reached plugin (scan_source_client c) ≡ s.scan_source)
      × (reached plugin (request_router_client c) ≡ s.request_router)
      × (reached plugin (event_consumer_client c) ≡ s.event_consumer)
      × (reached plugin (auth_provider_client c) ≡ s.auth_provider)
      × (reached plugin (auth_provider_checks_client c)
          ≡ chosen implements_checks s.auth_provider o.auth_provider_checks)
      × (reached plugin (network_identity_auth_client c)
          ≡ chosen implements_network s.auth_provider o.network_identity_auth)
      × (reached plugin (http_routes_client c) ≡ s.http_routes)
      × (reached plugin (watch_sync_provider_client c) ≡ s.watch_sync_provider)
      × (reached plugin (device_authorization_client c) ≡ o.watch_sync_device_authorization)
      × (reached plugin (network_access_provider_client c) ≡ s.network_access_provider)

  lookup-registered :
      (r : Server)
      → p.registered ≡ []
      → s.runtime ≡ some r
      → (plugin : Plugin) × (lookup "silo" (manifest_plugin_set s o) ≡ some plugin)
        × ((key : String)
            → lookup key (grpc_server plugin b p).0.registered ≡ first_offer key (services s o))
  unfolding lookup
  lookup-registered r fresh runtime =
      let (plugin, found, e) = manifest_plugin_set-Serves b p s r o runtime in
      (
        plugin,
        found,
        λ key.
            ap
              (λ (r : Process Broker HostConn × Result RegisterError (Unit {0})).
                lookup key r.0.registered)
              e
            ∙ ap (λ done. lookup key (register_each (all_offered s o) done)) fresh
            ∙ lookup-register_each key (all_offered s o) []
            ∙ ap (first_offer key) (all_offered_lem s o),
      )

  -- The plugin set that ServeManifest builds from a plugin's servers and options, of which the
  -- Runtime server is there, has a plugin under the name "silo"; once its GRPCServer has set up a
  -- fresh gRPC server, each typed client of the host reaches the server that was given for its
  -- service, and none if none was given; those of the two auth services the explicit server, if it
  -- is neither nil nor a nil pointer, or else the AuthProvider server if that implements the service.
  pub typed_clients_reach :
      {Conn : Type 0} (c : Client Conn Broker) (r : Server)
      → p.registered ≡ []
      → s.runtime ≡ some r
      → (plugin : Plugin) × (lookup "silo" (manifest_plugin_set s o) ≡ some plugin)
        × AllReach plugin c
  typed_clients_reach c r fresh runtime =
      let (plugin, found, at) = lookup-registered r fresh runtime in
      (
        plugin,
        found,
        (
          at (runtime_client c).service ∙ or_else-none _,
          at (metadata_provider_client c).service ∙ or_else-none _,
          at (image_resolver_client c).service ∙ or_else-none _,
          at (marker_provider_client c).service ∙ or_else-none _,
          at (media_analyzer_client c).service ∙ or_else-none _,
          at (scheduled_task_client c).service ∙ or_else-none _,
          at (scan_source_client c).service ∙ or_else-none _,
          at (request_router_client c).service ∙ or_else-none _,
          at (event_consumer_client c).service ∙ or_else-none _,
          at (auth_provider_client c).service ∙ or_else-none _,
          at (auth_provider_checks_client c).service ∙ or_else-none _,
          at (network_identity_auth_client c).service ∙ or_else-none _,
          at (http_routes_client c).service ∙ or_else-none _,
          at (watch_sync_provider_client c).service ∙ or_else-none _,
          at (device_authorization_client c).service ∙ or_else-none _,
          at (network_access_provider_client c).service ∙ or_else-none _,
        ),
      )
