-- ===== src/Manifest/Validation/Laws.antt =====
-- Which manifests `Validate` accepts.
use bloem_plugin_sdk.Base.{
  named_iff, String, ◌≡◌, refl, ◌≢◌, ◌↔◌, inl, inr, false, not, Bool-cases, Option, none, some, ok,
  wrap-eq-ok_iff, >>-eq-ok_iff, for_each_iff, for_each, passed, All, In, contains, contains→In,
  In→contains,
}
use bloem_plugin_sdk.Capability.{known_types}
use bloem_plugin_sdk.Messages.{CapabilityDescriptor, PluginManifest, deref}
use bloem_plugin_sdk.Messages.AdminForm.{ConfigSchema}
use bloem_plugin_sdk.Manifest.Packages.{Packages}
use bloem_plugin_sdk.Manifest.Presentation.Laws.{IsPresentation, validate_presentation_iff}
use bloem_plugin_sdk.Manifest.WatchSync.Laws.{
  IsWatchSyncCapability, validate_watch_sync_capability_iff,
}
use bloem_plugin_sdk.Manifest.NetworkAccess.{
  IsNetworkAccessCapability, validate_network_access_capability_iff,
}
use bloem_plugin_sdk.Manifest.RequestRouter.Laws.{
  IsRequestRouterCapability, validate_request_router_capability_iff,
}
use bloem_plugin_sdk.Manifest.Auth.Laws.{
  IsAuthCapability, validate_auth_provider_capability_iff, IsPaired,
  validate_network_auth_pairing_iff,
}
use bloem_plugin_sdk.Manifest.ConfigForm.Laws.{IsConfigSchema, validate_config_schema_iff}
use bloem_plugin_sdk.Manifest.ConfigForm.{validate_config_schema}
use bloem_plugin_sdk.Manifest.Validation.{
  presentation, capability, pairing, config, capability_config, watch_sync, network_access,
  request_router, auth, check_capability, validate_capability, check_config,
  check_capability_config, check_capability_configs, check_manifest, validate,
}

-- A capability with an id, of a known type, that meets the rules of each part.
pub record IsCapability (pkg : Packages) (d : CapabilityDescriptor) : Type 0 where
  pub has_id : d.id ≢ ""
  pub known_type : In d.type known_types
  pub watch_sync : IsWatchSyncCapability pkg d
  pub network_access : IsNetworkAccessCapability d
  pub request_router : IsRequestRouterCapability d
  pub auth : IsAuthCapability pkg.fold d

abbrev pub IsCapabilityPointer : Packages → Option CapabilityDescriptor → Type 0
IsCapabilityPointer pkg none = ⊥
IsCapabilityPointer pkg (some d) = IsCapability pkg d

-- A manifest with an id and a version, whose presentation, capabilities and config schemas are each
-- well formed, and whose network sign-in is paired with network access.
pub record IsManifest (pkg : Packages) (m : PluginManifest) : Type 0 where
  pub has_plugin_id : m.plugin_id ≢ ""
  pub has_version : m.version ≢ ""
  pub presentation : IsPresentation pkg m.presentation
  pub capabilities : All (IsCapabilityPointer pkg) m.capabilities
  pub paired : IsPaired m.capabilities
  pub global_config : All (IsConfigSchema pkg) m.global_config_schema
  pub user_config : All (IsConfigSchema pkg) m.user_config_schema
  pub capability_config : All (λ d. All (IsConfigSchema pkg) (deref d).config_schema) m.capabilities

known_iff : (t : String) → (not (contains known_types t) ≡ false) ↔ In t known_types
known_iff t = elim (Bool-cases (contains known_types t)) [
  | inl e ↦ (λ h. contains→In known_types t e, λ h. rw e)
  | inr e ↦ (λ h. cc (rw e at h), λ h. cc (e, In→contains known_types t h))
]

nil_is_unknown : contains known_types "" ≡ false
unfolding contains
nil_is_unknown = refl

known-ne-nil : (t : String) → In t known_types → t ≢ ""
known-ne-nil t h e = cc (In→contains known_types t h, nil_is_unknown)

module _ (pkg : Packages) where
  check_capability_iff :
      (d : CapabilityDescriptor)
      → (check_capability pkg d ≡ ok tt) ↔ (
          In d.type known_types
          × IsWatchSyncCapability pkg d
          × IsNetworkAccessCapability d
          × IsRequestRouterCapability d
          × IsAuthCapability pkg.fold d)
  unfolding check_capability
  check_capability_iff d =
      let w = validate_watch_sync_capability_iff pkg d in
      let n = validate_network_access_capability_iff d in
      let r = validate_request_router_capability_iff d in
      let a = validate_auth_provider_capability_iff pkg.fold d in
      (
        λ h0.
            let (known, h1) = (>>-eq-ok_iff _ _ tt).0 h0 in
            let (watch, h2) = (>>-eq-ok_iff _ _ tt).0 h1 in
            let (network, h3) = (>>-eq-ok_iff _ _ tt).0 h2 in
            let (router, h4) = (>>-eq-ok_iff _ _ tt).0 h3 in
            (
              (known_iff d.type).0 (passed _ _ known),
              w.0 ((wrap-eq-ok_iff watch_sync _ tt).0 watch),
              n.0 ((wrap-eq-ok_iff network_access _ tt).0 network),
              r.0 ((wrap-eq-ok_iff request_router _ tt).0 router),
              a.0 ((wrap-eq-ok_iff auth _ tt).0 h4),
            ),
        λ h. rw ((known_iff d.type).1 h.0, w.1 h.1, n.1 h.2, r.1 h.3, a.1 h.4),
      )

  validate_capability_iff :
      (o : Option CapabilityDescriptor)
      → (validate_capability pkg o ≡ ok tt) ↔ IsCapabilityPointer pkg o
  unfolding validate_capability
  validate_capability_iff none = (λ h. cc, λ h. absurd h)
  validate_capability_iff (some d) =
      let (to, from) = check_capability_iff d in
      (
        λ h.
            let (typed, h1) = (>>-eq-ok_iff _ _ tt).0 h in
            let (named, h2) = (>>-eq-ok_iff _ _ tt).0 h1 in
            let (known, watch, network, router, signing) =
              to ((wrap-eq-ok_iff (capability d.id) _ tt).0 h2) in
            record {
              has_id = (named_iff d.id).0 (passed _ _ named);
              known_type = known;
              watch_sync = watch;
              network_access = network;
              request_router = router;
              auth = signing;
            },
        λ h. rw (
          (named_iff d.type).1 (known-ne-nil d.type h.known_type),
          (named_iff d.id).1 h.has_id,
          from (h.known_type, h.watch_sync, h.network_access, h.request_router, h.auth),
        ),
      )

  check_config_iff : (o : Option ConfigSchema) → (check_config pkg o ≡ ok tt) ↔ IsConfigSchema pkg o
  check_config_iff o =
      let (to, from) = validate_config_schema_iff pkg o in
      let inner = wrap-eq-ok_iff config (validate_config_schema pkg o) tt in
      (λ h. to (inner.0 h), λ h. inner.1 (from h))

  check_capability_config_iff :
      (id : String) (o : Option ConfigSchema)
      → (check_capability_config pkg id o ≡ ok tt) ↔ IsConfigSchema pkg o
  check_capability_config_iff id o =
      let (to, from) = validate_config_schema_iff pkg o in
      let inner = wrap-eq-ok_iff (capability_config id) (validate_config_schema pkg o) tt in
      (λ h. to (inner.0 h), λ h. inner.1 (from h))

  check_capability_configs_iff :
      (d : Option CapabilityDescriptor)
      → (check_capability_configs pkg d ≡ ok tt) ↔ All (IsConfigSchema pkg) (deref d).config_schema
  check_capability_configs_iff d =
      for_each_iff _ (check_capability_config_iff (deref d).id) (deref d).config_schema

  module _ (m : PluginManifest) where
    capabilities_iff :
        (for_each (validate_capability pkg) m.capabilities ≡ ok tt)
        ↔ All (IsCapabilityPointer pkg) m.capabilities
    capabilities_iff = for_each_iff _ validate_capability_iff m.capabilities

    capability_configs_iff :
        (for_each (check_capability_configs pkg) m.capabilities ≡ ok tt)
        ↔ All (λ d. All (IsConfigSchema pkg) (deref d).config_schema) m.capabilities
    capability_configs_iff = for_each_iff _ check_capability_configs_iff m.capabilities

    check_manifest_sound : check_manifest pkg m ≡ ok tt → IsManifest pkg m
    unfolding check_manifest
    check_manifest_sound h0 =
        let (id, h1) = (>>-eq-ok_iff _ _ tt).0 h0 in
        let (version, h2) = (>>-eq-ok_iff _ _ tt).0 h1 in
        let (presented, h3) = (>>-eq-ok_iff _ _ tt).0 h2 in
        let (capable, h4) = (>>-eq-ok_iff _ _ tt).0 h3 in
        let (paired, h5) = (>>-eq-ok_iff _ _ tt).0 h4 in
        let (globals, h6) = (>>-eq-ok_iff _ _ tt).0 h5 in
        let (users, capabilities) = (>>-eq-ok_iff _ _ tt).0 h6 in
        record {
          has_plugin_id = (named_iff m.plugin_id).0 (passed _ _ id);
          has_version = (named_iff m.version).0 (passed _ _ version);
          presentation =
              (validate_presentation_iff pkg m.presentation).0
                ((wrap-eq-ok_iff presentation _ tt).0 presented);
          capabilities = capabilities_iff.0 capable;
          paired =
              (validate_network_auth_pairing_iff m.capabilities).0
                ((wrap-eq-ok_iff pairing _ tt).0 paired);
          global_config = (for_each_iff _ check_config_iff m.global_config_schema).0 globals;
          user_config = (for_each_iff _ check_config_iff m.user_config_schema).0 users;
          capability_config = capability_configs_iff.0 capabilities;
        }

    check_manifest_complete : IsManifest pkg m → check_manifest pkg m ≡ ok tt
    unfolding check_manifest
    check_manifest_complete h =
        rw
          (
            (named_iff m.plugin_id).1 h.has_plugin_id,
            (named_iff m.version).1 h.has_version,
            (validate_presentation_iff pkg m.presentation).1 h.presentation,
            capabilities_iff.1 h.capabilities,
            (validate_network_auth_pairing_iff m.capabilities).1 h.paired,
            (for_each_iff _ check_config_iff m.global_config_schema).1 h.global_config,
            (for_each_iff _ check_config_iff m.user_config_schema).1 h.user_config,
          )
          (capability_configs_iff.1 h.capability_config)

  abbrev pub IsManifestPointer : Option PluginManifest → Type 0
  IsManifestPointer none = ⊥
  IsManifestPointer (some m) = IsManifest pkg m

  -- `Validate` accepts exactly the well-formed manifests.
  pub validate_iff : (o : Option PluginManifest) → (validate pkg o ≡ ok tt) ↔ IsManifestPointer o
  unfolding validate
  validate_iff none = (λ h. cc, λ h. absurd h)
  validate_iff (some m) = (check_manifest_sound m, check_manifest_complete m)
