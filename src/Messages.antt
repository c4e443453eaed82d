-- ===== src/Messages.antt =====
-- The protobuf messages that the SDK reads and writes. A nil pointer is `none`, an enum is its
-- number, since proto3 enums are open, and the generated bookkeeping fields are left out.
pub mod WatchSync
pub mod AdminForm
use bloem_plugin_sdk.Base.{String, Bool, Option, none, some, List, []}
use bloem_plugin_sdk.Values.{Value}
use WatchSync.{WatchSyncProviderDescriptor}
use AdminForm.{ConfigSchema}

-- `*structpb.Struct`, as its entries
abbrev pub Struct : Type 0
Struct = List (String × Value)

pub record NetworkAccessProviderDescriptor : Type 0 where
  pub provider : String
  pub display_name : String

pub record RequestStatusWording : Type 0 where
  pub label : String
  pub detail : String

pub record RequestRouterWording : Type 0 where
  pub step : String
  pub queued : Option RequestStatusWording
  pub downloading : Option RequestStatusWording

pub record RequestRouterDescriptor : Type 0 where
  pub supports_seasons : Bool
  pub reports_download_progress : Bool
  pub wording : Option RequestRouterWording

pub record CapabilityDescriptor : Type 0 where
  pub type : String
  pub id : String
  pub display_name : String
  pub description : String
  pub subscriptions : List String
  pub config_schema : List (Option ConfigSchema)
  pub metadata : Option Struct
  pub auth_modes : List String
  pub icon_url : String
  pub watch_sync_provider : Option WatchSyncProviderDescriptor
  pub network_access_provider : Option NetworkAccessProviderDescriptor
  pub request_router : Option RequestRouterDescriptor

-- What the getters return on a nil descriptor.
abbrev pub empty_descriptor : CapabilityDescriptor
empty_descriptor = record {
  type = "";
  id = "";
  display_name = "";
  description = "";
  subscriptions = [];
  config_schema = [];
  metadata = none;
  auth_modes = [];
  icon_url = "";
  watch_sync_provider = none;
  network_access_provider = none;
  request_router = none;
}

abbrev pub deref : Option CapabilityDescriptor → CapabilityDescriptor
deref none = empty_descriptor
deref (some d) = d

pub record PluginPresentation : Type 0 where
  pub display_name : String
  pub summary : String
  pub description_markdown : String
  pub setup_markdown : String
  pub homepage_url : String
  pub source_url : String
  pub support_url : String
  pub changelog_url : String
  pub publisher_name : String
  pub publisher_url : String
  pub license_spdx : String

pub record SupportedPlatform : Type 0 where
  pub os : String
  pub arch : String

pub record HttpRouteDescriptor : Type 0 where
  pub id : String
  pub method : String
  pub path : String
  pub access : String
  pub navigable : Bool
  pub navigation_label : String
  pub navigation_kind : String
  pub static_asset : Bool

pub record PackagedAsset : Type 0 where
  pub path : String
  pub content_type : String
  pub integrity : String

pub record PluginManifest : Type 0 where
  pub plugin_id : String
  pub version : String
  pub checksum : String
  pub silo_api_version : String
  pub supported_platforms : List SupportedPlatform
  pub capabilities : List (Option CapabilityDescriptor)
  pub global_config_schema : List (Option ConfigSchema)
  pub user_config_schema : List (Option ConfigSchema)
  pub http_routes : List (Option HttpRouteDescriptor)
  pub assets : List (Option PackagedAsset)
  pub metadata : Option Struct
  pub category : String
  pub presentation : Option PluginPresentation
