-- ===== src/Messages/WatchSync.antt =====
-- The watch-sync descriptor of a capability and its enums.
use bloem_plugin_sdk.Base.{String, Bool, Option, List}
use bloem_plugin_sdk.Base.Int.{ℤ, pos}
use bloem_plugin_sdk.Values.{Value}

abbrev pub WatchSyncAuthMethod : Type 0
WatchSyncAuthMethod = ℤ

abbrev pub auth_method_unspecified : WatchSyncAuthMethod
auth_method_unspecified = pos 0

abbrev pub WatchSyncMediaType : Type 0
WatchSyncMediaType = ℤ

abbrev pub media_type_unspecified : WatchSyncMediaType
media_type_unspecified = pos 0

abbrev pub media_type_movie : WatchSyncMediaType
media_type_movie = pos 1

abbrev pub media_type_episode : WatchSyncMediaType
media_type_episode = pos 2

abbrev pub media_type_series : WatchSyncMediaType
media_type_series = pos 3

abbrev pub WatchSyncConnectionSettingType : Type 0
WatchSyncConnectionSettingType = ℤ

abbrev pub setting_type_boolean : WatchSyncConnectionSettingType
setting_type_boolean = pos 1

pub record WatchSyncConnectionSetting : Type 0 where
  pub key : String
  pub label : String
  pub description : String
  pub type : WatchSyncConnectionSettingType
  pub default_value : Option Value

pub record WatchSyncProviderDescriptor : Type 0 where
  pub auth_methods : List WatchSyncAuthMethod
  pub export_watched : Bool
  pub export_unwatched : Bool
  pub import_watched : Bool
  pub import_progress : Bool
  pub supported_media_types : List WatchSyncMediaType
  pub external_id_namespaces : List String
  pub max_batch_size : ℤ
  pub import_favorites : Bool
  pub export_favorites : Bool
  pub remove_favorites : Bool
  pub import_watchlist : Bool
  pub export_watchlist : Bool
  pub remove_watchlist : Bool
  pub provides_watchlist_order : Bool
  pub scrobble_playback : Bool
  pub import_ratings : Bool
  pub export_ratings : Bool
  pub sync_dropped : Bool
  pub rating_export_requires_watched : List WatchSyncMediaType
  pub connection_settings : List (Option WatchSyncConnectionSetting)
