-- ===== src/Manifest/Validation.antt =====
-- Validate and ValidateCatalogPresentation, composed of the rules of each part.
pub mod Laws
pub mod Catalog
use bloem_plugin_sdk.Base.{
  ℕ, String, Bool, true, false, not, ◌&&◌, Option, none, some, List, [], ◌∷◌, str_eq, Result, ok,
  err, ◌>>◌, fail_if, wrap, for_each, contains,
}
use bloem_plugin_sdk.Text.{trim_space}
use bloem_plugin_sdk.Capability.{known_types}
use bloem_plugin_sdk.Messages.{CapabilityDescriptor, PluginPresentation, PluginManifest, deref}
use bloem_plugin_sdk.Messages.AdminForm.{ConfigSchema}
use bloem_plugin_sdk.Manifest.Packages.{Packages}
use bloem_plugin_sdk.Manifest.Presentation.{
  PresentationError, NamedField, validate_presentation, equal_canonical_url,
}
use bloem_plugin_sdk.Manifest.WatchSync.{WatchSyncError, validate_watch_sync_capability}
use bloem_plugin_sdk.Manifest.NetworkAccess.{NetworkAccessError, validate_network_access_capability}
use bloem_plugin_sdk.Manifest.RequestRouter.{RequestRouterError, validate_request_router_capability}
use bloem_plugin_sdk.Manifest.Auth.{
  AuthError, PairingError, validate_auth_provider_capability, validate_network_auth_pairing,
}
use bloem_plugin_sdk.Manifest.ConfigForm.{ConfigError, validate_config_schema}

-- The errors of a capability, by the part that reports them.
pub data CapabilityError : Type 0 where
  unknown_type : String → CapabilityError
  watch_sync : WatchSyncError → CapabilityError
  network_access : NetworkAccessError → CapabilityError
  request_router : RequestRouterError → CapabilityError
  auth : AuthError → CapabilityError

-- `nil_dereference` is the panic on a nil capability, whose fields the loop reads directly.
pub data ManifestError : Type 0 where
  manifest_required plugin_id_required version_required : ManifestError
  capability_type_required capability_id_required nil_dereference : ManifestError
  presentation : PresentationError → ManifestError
  capability : String → CapabilityError → ManifestError
  pairing : PairingError → ManifestError
  config : ConfigError → ManifestError
  capability_config : String → ConfigError → ManifestError
  presentation_required : ManifestError
  catalog_field_required source_url_mismatch : String → ManifestError

abbrev pub required_fields : PluginPresentation → List NamedField
required_fields p =
    record { name = "display_name"; value = p.display_name }
    ∷ record { name = "summary"; value = p.summary }
    ∷ record { name = "description_markdown"; value = p.description_markdown }
    ∷ record { name = "setup_markdown"; value = p.setup_markdown }
    ∷ record { name = "homepage_url"; value = p.homepage_url }
    ∷ record { name = "source_url"; value = p.source_url }
    ∷ record { name = "support_url"; value = p.support_url }
    ∷ record { name = "changelog_url"; value = p.changelog_url }
    ∷ record { name = "publisher_name"; value = p.publisher_name }
    ∷ record { name = "publisher_url"; value = p.publisher_url }
    ∷ record { name = "license_spdx"; value = p.license_spdx }
    ∷ []

abbrev pub check_required : NamedField → Result ManifestError (Unit {0})
check_required f = fail_if (str_eq (trim_space f.value) "") (catalog_field_required f.name)

abbrev pub presentation_of : Option PluginManifest → Option PluginPresentation
presentation_of none = none
presentation_of (some m) = m.presentation

module _ (pkg : Packages) where
  unfoldable pub check_capability : CapabilityDescriptor → Result CapabilityError (Unit {0})
  check_capability d = do
    fail_if (not (contains known_types d.type)) (unknown_type d.type)
    wrap watch_sync (validate_watch_sync_capability pkg d)
    wrap network_access (validate_network_access_capability d)
    wrap request_router (validate_request_router_capability d)
    wrap auth (validate_auth_provider_capability pkg.fold d)

  -- One round of the loop over the capabilities.
  unfoldable pub validate_capability : Option CapabilityDescriptor → Result ManifestError (Unit {0})
  unfolding check_capability
  validate_capability none = err nil_dereference
  validate_capability (some d) = do
    fail_if (str_eq d.type "") capability_type_required
    fail_if (str_eq d.id "") capability_id_required
    wrap (capability d.id) (check_capability d)

  abbrev pub check_config : Option ConfigSchema → Result ManifestError (Unit {0})
  check_config s = wrap config (validate_config_schema pkg s)

  abbrev pub check_capability_config :
      String → Option ConfigSchema → Result ManifestError (Unit {0})
  check_capability_config id s = wrap (capability_config id) (validate_config_schema pkg s)

  -- One round of the last loop, over the config schemas of a capability.
  abbrev pub check_capability_configs :
      Option CapabilityDescriptor → Result ManifestError (Unit {0})
  check_capability_configs d =
      for_each (check_capability_config (deref d).id) (deref d).config_schema

  unfoldable pub check_manifest : PluginManifest → Result ManifestError (Unit {0})
  unfolding validate_capability
  check_manifest m = do
    fail_if (str_eq m.plugin_id "") plugin_id_required
    fail_if (str_eq m.version "") version_required
    wrap presentation (validate_presentation pkg m.presentation)
    for_each validate_capability m.capabilities
    wrap pairing (validate_network_auth_pairing m.capabilities)
    for_each check_config m.global_config_schema
    for_each check_config m.user_config_schema
    for_each check_capability_configs m.capabilities

  -- `Validate`
  unfoldable pub validate : Option PluginManifest → Result ManifestError (Unit {0})
  unfolding check_manifest
  validate none = err manifest_required
  validate (some m) = check_manifest m

  -- `ValidateCatalogPresentation` of a manifest; the text is the expected source URL.
  abbrev pub check_catalog : String → Option PluginPresentation → Result ManifestError (Unit {0})
  check_catalog expected none = err presentation_required
  check_catalog expected (some p) = do
    for_each check_required (required_fields p)
    fail_if (not (str_eq expected "") && not (equal_canonical_url pkg.fold p.source_url expected))
        (source_url_mismatch p.source_url)

  unfoldable pub validate_catalog_presentation :
      Option PluginManifest → String → Result ManifestError (Unit {0})
  unfolding validate
  validate_catalog_presentation m expected = do
    validate m
    check_catalog expected (presentation_of m)
