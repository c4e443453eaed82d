-- ===== src/Manifest/Tests.antt =====
-- The validator, the loader and the registrations at concrete inputs: a plugin that signs its users
-- in over a network, syncs what was watched, and has a small settings form.
use bloem_plugin_sdk.Base.{
  true, false, Option, none, some, [], ◌∷◌, ◌≡◌, refl, ok, contains, lookup, insert, any,
}
use bloem_plugin_sdk.Base.Int.{pos}
use bloem_plugin_sdk.Values.{Value, bool_value, string_value, Any, bool, text}
use bloem_plugin_sdk.Capability
use bloem_plugin_sdk.Messages.{
  CapabilityDescriptor, empty_descriptor, PluginManifest, PluginPresentation, RequestStatusWording,
  HttpRouteDescriptor, PackagedAsset,
}
use bloem_plugin_sdk.Messages.WatchSync.{WatchSyncConnectionSetting}
use bloem_plugin_sdk.Messages.AdminForm.{ConfigSchema, AdminFormField}
use bloem_plugin_sdk.Manifest.Packages.{Packages}
use bloem_plugin_sdk.Text.{
  is_space, is_control, trim_left, trim_right, trim_space, trim_suffix, contains_func, equal_fold,
  has_disallowed_control, is_alnum, is_separator, slug_step, slug_from, is_slug,
}
use bloem_plugin_sdk.Manifest.Presentation.{
  check_single_line, check_markdown, equal_canonical_url, check_parsed_url,
  validate_presentation_url, check_url, validate_presentation,
}
use bloem_plugin_sdk.Manifest.WatchSync.{
  supports_media_type, supports_rated_media_type, has_operation, check_settings,
  validate_connection_settings, check_watch_sync, validate_watch_sync_capability,
}
use bloem_plugin_sdk.Manifest.NetworkAccess.{validate_network_access_capability}
use bloem_plugin_sdk.Manifest.RequestRouter.{
  validate_wording_value, validate_status_wording, validate_request_status_wording,
  validate_request_router_wording, validate_request_router_capability,
}
use bloem_plugin_sdk.Manifest.Auth.{
  auth_provider_uses_network_identity, check_modes, check_network_alone,
  validate_auth_provider_capability, pairing_step, pairing_from, validate_network_auth_pairing,
}
use bloem_plugin_sdk.Manifest.ConfigForm.{
  check_control, check_default_type, has_reference, check_condition, check_references,
  check_section, check_fields, check_form, validate_config_schema,
}
use bloem_plugin_sdk.Manifest.Validation.{
  check_capability, validate_capability, check_manifest, validate, validate_catalog_presentation,
}
use bloem_plugin_sdk.Manifest.Loading.{
  hex_encode, load, must_load, load_with_checksum, register_http_routes, register_assets, System,
}
use bloem_plugin_sdk.Text.Slug.{IsSlug, is_slug_iff}
use bloem_plugin_sdk.Manifest.Presentation.Laws.{IsPresentation, validate_presentation_iff}
use bloem_plugin_sdk.Manifest.WatchSync.Laws.{
  IsWatchSyncCapability, validate_watch_sync_capability_iff,
}
use bloem_plugin_sdk.Manifest.Auth.Laws.{
  IsAuthCapability, IsPaired, validate_auth_provider_capability_iff,
  validate_network_auth_pairing_iff,
}
use bloem_plugin_sdk.Manifest.ConfigForm.Laws.{IsConfigSchema, validate_config_schema_iff}
use bloem_plugin_sdk.Manifest.Validation.Laws.{IsManifestPointer, validate_iff}
use bloem_plugin_sdk.Manifest.Validation.Catalog.{
  IsFilled, HasSource, validate_catalog_presentation_iff,
}
use bloem_plugin_sdk.Manifest.Loading.Laws.{IsStamped, load_with_checksum-eq-ok_iff}

abbrev as_interface : Value → Any
as_interface (bool_value b) = bool b
as_interface (string_value t) = text t
as_interface _ = Any.nil

-- ASCII folding, one web address, and one JSON schema
abbrev pub packages : Packages
packages = record {
  fold = λ c. c;
  parse_url = λ s. some (record { scheme = "https"; host = "example.org"; has_user = false });
  parse_schema = λ s.
      some
        (record { type = "object"; properties = ("enabled", "boolean") ∷ ("mode", "string") ∷ [] });
  as_interface = as_interface;
}

abbrev network_access : CapabilityDescriptor
network_access = record empty_descriptor {
  type = Capability.network_access_provider;
  id = "overlay";
  network_access_provider = some (record { provider = "tail-net"; display_name = "Tail net" });
}

abbrev pub network_sign_in : CapabilityDescriptor
network_sign_in = record empty_descriptor {
  type = Capability.auth_provider;
  id = "sign-in";
  auth_modes = "network" ∷ [];
  metadata = some (("connection_test", bool_value true) ∷ []);
}

abbrev setting : WatchSyncConnectionSetting
setting = record {
  key = "private-sync";
  label = "Private";
  description = "";
  type = pos 1;
  default_value = some (bool_value true);
}

abbrev watch_sync : CapabilityDescriptor
watch_sync = record empty_descriptor {
  type = Capability.watch_sync_provider;
  id = "sync";
  watch_sync_provider = some (record {
    auth_methods = pos 1 ∷ [];
    export_watched = true;
    export_unwatched = false;
    import_watched = false;
    import_progress = false;
    supported_media_types = pos 1 ∷ pos 3 ∷ [];
    external_id_namespaces = [];
    max_batch_size = pos 100;
    import_favorites = false;
    export_favorites = false;
    remove_favorites = false;
    import_watchlist = true;
    export_watchlist = false;
    remove_watchlist = false;
    provides_watchlist_order = true;
    scrobble_playback = false;
    import_ratings = true;
    export_ratings = false;
    sync_dropped = true;
    rating_export_requires_watched = [];
    connection_settings = some setting ∷ [];
  });
}

abbrev wording : RequestStatusWording
wording = record { label = "Waiting"; detail = "In the queue" }

abbrev router : CapabilityDescriptor
router = record empty_descriptor {
  type = Capability.request_router;
  id = "router";
  request_router = some (record {
    supports_seasons = true;
    reports_download_progress = false;
    wording = some (record { step = "Sent"; queued = some wording; downloading = none });
  });
}

abbrev enabled_field : AdminFormField
enabled_field = record {
  key = "enabled";
  label = "On";
  description = "";
  control = pos 4;
  placeholder = "";
  required = false;
  secret = false;
  multiline = false;
  default_value = some (bool_value false);
  options = [];
  rows = pos 0;
  dynamic_options = false;
  show_when = [];
  validation = none;
  exclusive_group_field = "";
}

abbrev mode_field : AdminFormField
mode_field = record {
  key = "mode";
  label = "Mode";
  description = "";
  control = pos 6;
  placeholder = "";
  required = false;
  secret = false;
  multiline = false;
  default_value = some (string_value "a");
  options = some (record { value = "a"; label = "A"; description = "" }) ∷ [];
  rows = pos 0;
  dynamic_options = false;
  show_when = some (record { field = "enabled"; equals = "true" ∷ [] }) ∷ [];
  validation = none;
  exclusive_group_field = "enabled";
}

abbrev schema : ConfigSchema
schema = record {
  key = "main";
  title = "";
  description = "";
  json_schema = "{}";
  required = false;
  admin_form = some (record {
    fields = some enabled_field ∷ some mode_field ∷ [];
    submit_label = "";
    sections =
        some (record {
          key = "all";
          title = "";
          description = "";
          collapsible = false;
          collapsed_default = false;
          field_keys = "mode" ∷ "enabled" ∷ [];
          show_when = [];
        })
        ∷ [];
  });
}

abbrev presentation : PluginPresentation
presentation = record {
  display_name = "Overlay";
  summary = "Signs in";
  description_markdown = "Over the network.";
  setup_markdown = "Install it.";
  homepage_url = "https://example.org";
  source_url = "https://example.org/source";
  support_url = "https://example.org/help";
  changelog_url = "https://example.org/changes";
  publisher_name = "Ana";
  publisher_url = "https://example.org/ana";
  license_spdx = "MIT";
}

abbrev pub manifest : PluginManifest
manifest = record {
  plugin_id = "overlay-sign-in";
  version = "1.2.0";
  checksum = "";
  silo_api_version = "v1";
  supported_platforms = [];
  capabilities = some network_access ∷ some network_sign_in ∷ some watch_sync ∷ some router ∷ [];
  global_config_schema = some schema ∷ [];
  user_config_schema = [];
  http_routes = [];
  assets = [];
  metadata = none;
  category = "";
  presentation = some presentation;
}

-- The embedded bytes decode to the manifest; the binary's digest has two bytes.
abbrev pub system : System
system = record {
  decode = λ bytes. some manifest;
  read_file = λ path. some (1 ∷ 2 ∷ []);
  executable = some "/usr/bin/overlay";
  sha256 = λ bytes. 10 ∷ 255 ∷ [];
}

abbrev pub stamped : PluginManifest
stamped = record manifest { version = "1.3.0"; checksum = "0aff" }

abbrev route : Option HttpRouteDescriptor
route = some (record {
  id = "page";
  method = "GET";
  path = "/";
  access = "admin";
  navigable = false;
  navigation_label = "";
  navigation_kind = "";
  static_asset = false;
})

abbrev page : Option PackagedAsset
page = some (record { path = "index.html"; content_type = ""; integrity = "" })

is_slug_iff_example : IsSlug "tail-net"
unfolding is_space is_control trim_left trim_right trim_space trim_suffix contains_func equal_fold
    has_disallowed_control is_alnum is_separator slug_step slug_from is_slug contains lookup insert
    any check_single_line check_markdown equal_canonical_url check_parsed_url
    validate_presentation_url check_url validate_presentation
is_slug_iff_example = (is_slug_iff "tail-net").0 refl

validate_presentation_iff_example : IsPresentation packages (some presentation)
unfolding is_space is_control trim_left trim_right trim_space trim_suffix contains_func equal_fold
    has_disallowed_control is_alnum is_separator slug_step slug_from is_slug contains lookup insert
    any check_single_line check_markdown equal_canonical_url check_parsed_url
    validate_presentation_url check_url validate_presentation
validate_presentation_iff_example = (validate_presentation_iff packages (some presentation)).0 refl

validate_watch_sync_capability_iff_example : IsWatchSyncCapability packages watch_sync
unfolding is_space is_control trim_left trim_right trim_space trim_suffix contains_func equal_fold
    has_disallowed_control is_alnum is_separator slug_step slug_from is_slug contains lookup insert
    any supports_media_type supports_rated_media_type has_operation check_settings
    validate_connection_settings check_watch_sync validate_watch_sync_capability
validate_watch_sync_capability_iff_example =
    (validate_watch_sync_capability_iff packages watch_sync).0 refl

validate_auth_provider_capability_iff_example : IsAuthCapability (λ c. c) network_sign_in
unfolding is_space is_control trim_left trim_right trim_space trim_suffix contains_func equal_fold
    has_disallowed_control is_alnum is_separator slug_step slug_from is_slug contains lookup insert
    any auth_provider_uses_network_identity check_modes check_network_alone
    validate_auth_provider_capability pairing_step pairing_from validate_network_auth_pairing
validate_auth_provider_capability_iff_example =
    (validate_auth_provider_capability_iff (λ c. c) network_sign_in).0 refl

validate_network_auth_pairing_iff_example : IsPaired manifest.capabilities
unfolding is_space is_control trim_left trim_right trim_space trim_suffix contains_func equal_fold
    has_disallowed_control is_alnum is_separator slug_step slug_from is_slug contains lookup insert
    any auth_provider_uses_network_identity check_modes check_network_alone
    validate_auth_provider_capability pairing_step pairing_from validate_network_auth_pairing
validate_network_auth_pairing_iff_example =
    (validate_network_auth_pairing_iff manifest.capabilities).0 refl

validate_config_schema_iff_example : IsConfigSchema packages (some schema)
unfolding is_space is_control trim_left trim_right trim_space trim_suffix contains_func equal_fold
    has_disallowed_control is_alnum is_separator slug_step slug_from is_slug contains lookup insert
    any check_control check_default_type has_reference check_condition check_references
    check_section check_fields check_form validate_config_schema
validate_config_schema_iff_example = (validate_config_schema_iff packages (some schema)).0 refl

validate_iff_example : IsManifestPointer packages (some manifest)
unfolding is_space is_control trim_left trim_right trim_space trim_suffix contains_func equal_fold
    has_disallowed_control is_alnum is_separator slug_step slug_from is_slug contains lookup insert
    any check_single_line check_markdown equal_canonical_url check_parsed_url
    validate_presentation_url check_url validate_presentation supports_media_type
    supports_rated_media_type has_operation check_settings validate_connection_settings
    check_watch_sync validate_watch_sync_capability validate_network_access_capability
    validate_wording_value validate_status_wording validate_request_status_wording
    validate_request_router_wording validate_request_router_capability
    auth_provider_uses_network_identity check_modes check_network_alone
    validate_auth_provider_capability pairing_step pairing_from validate_network_auth_pairing
    check_control check_default_type has_reference check_condition check_references check_section
    check_fields check_form validate_config_schema check_capability validate_capability
    check_manifest validate validate_catalog_presentation
validate_iff_example = (validate_iff packages (some manifest)).0 refl

validate_catalog_presentation_iff_example :
    IsManifestPointer packages (some manifest)
    × ((p : PluginPresentation) × (some presentation ≡ some p)
        × IsFilled p
        × HasSource packages "https://example.org/source" p)
unfolding is_space is_control trim_left trim_right trim_space trim_suffix contains_func equal_fold
    has_disallowed_control is_alnum is_separator slug_step slug_from is_slug contains lookup insert
    any check_single_line check_markdown equal_canonical_url check_parsed_url
    validate_presentation_url check_url validate_presentation supports_media_type
    supports_rated_media_type has_operation check_settings validate_connection_settings
    check_watch_sync validate_watch_sync_capability validate_network_access_capability
    validate_wording_value validate_status_wording validate_request_status_wording
    validate_request_router_wording validate_request_router_capability
    auth_provider_uses_network_identity check_modes check_network_alone
    validate_auth_provider_capability pairing_step pairing_from validate_network_auth_pairing
    check_control check_default_type has_reference check_condition check_references check_section
    check_fields check_form validate_config_schema check_capability validate_capability
    check_manifest validate validate_catalog_presentation
validate_catalog_presentation_iff_example =
    (validate_catalog_presentation_iff packages (some manifest) "https://example.org/source").0 refl

pub is_loaded : load_with_checksum packages system [] "1.3.0" ≡ ok stamped
unfolding is_space is_control trim_left trim_right trim_space trim_suffix contains_func equal_fold
    has_disallowed_control is_alnum is_separator slug_step slug_from is_slug contains lookup insert
    any check_single_line check_markdown equal_canonical_url check_parsed_url
    validate_presentation_url check_url validate_presentation supports_media_type
    supports_rated_media_type has_operation check_settings validate_connection_settings
    check_watch_sync validate_watch_sync_capability validate_network_access_capability
    validate_wording_value validate_status_wording validate_request_status_wording
    validate_request_router_wording validate_request_router_capability
    auth_provider_uses_network_identity check_modes check_network_alone
    validate_auth_provider_capability pairing_step pairing_from validate_network_auth_pairing
    check_control check_default_type has_reference check_condition check_references check_section
    check_fields check_form validate_config_schema check_capability validate_capability
    check_manifest validate validate_catalog_presentation hex_encode load must_load
    load_with_checksum register_http_routes register_assets
is_loaded = refl

load_with_checksum-eq-ok_iff_example : IsStamped packages system [] "1.3.0" stamped
unfolding is_space is_control trim_left trim_right trim_space trim_suffix contains_func equal_fold
    has_disallowed_control is_alnum is_separator slug_step slug_from is_slug contains lookup insert
    any check_single_line check_markdown equal_canonical_url check_parsed_url
    validate_presentation_url check_url validate_presentation supports_media_type
    supports_rated_media_type has_operation check_settings validate_connection_settings
    check_watch_sync validate_watch_sync_capability validate_network_access_capability
    validate_wording_value validate_status_wording validate_request_status_wording
    validate_request_router_wording validate_request_router_capability
    auth_provider_uses_network_identity check_modes check_network_alone
    validate_auth_provider_capability pairing_step pairing_from validate_network_auth_pairing
    check_control check_default_type has_reference check_condition check_references check_section
    check_fields check_form validate_config_schema check_capability validate_capability
    check_manifest validate validate_catalog_presentation hex_encode load must_load
    load_with_checksum register_http_routes register_assets
load_with_checksum-eq-ok_iff_example =
    (load_with_checksum-eq-ok_iff packages system [] "1.3.0" stamped).0 refl
