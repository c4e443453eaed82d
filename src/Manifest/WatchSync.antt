-- ===== src/Manifest/WatchSync.antt =====
-- The watch_sync_provider.v1 rules: validateWatchSyncCapability and its helpers.
pub mod Settings
pub mod Laws
use bloem_plugin_sdk.Base.{
  ℕ, String, Bool, true, false, not, ◌&&◌, ◌||◌, Option, none, some, List, [], ◌∷◌, str_eq, Result,
  ok, err, ◌>>◌, fail_if, for_each, contains, any, is_empty, is_some, if◌then◌else◌,
}
use bloem_plugin_sdk.Base.Int.{ℤ, pos, ltb_ℤ, eqb_ℤ}
use bloem_plugin_sdk.Text.{trim_space, is_slug}
use bloem_plugin_sdk.Values.{Value, Any, bool}
use bloem_plugin_sdk.Capability
use bloem_plugin_sdk.Messages.{CapabilityDescriptor}
use bloem_plugin_sdk.Messages.WatchSync.{
  WatchSyncAuthMethod, WatchSyncMediaType, WatchSyncProviderDescriptor, WatchSyncConnectionSetting,
  auth_method_unspecified, media_type_unspecified, media_type_movie, media_type_series,
  setting_type_boolean,
}
use bloem_plugin_sdk.Manifest.Packages.{Packages}

pub data WatchSyncError : Type 0 where
  needs_type id_not_slug descriptor_required auth_method_required : WatchSyncError
  auth_method_is_unspecified operation_required order_needs_import : WatchSyncError
  bad_max_batch_size media_type_required media_type_is_unspecified : WatchSyncError
  ratings_need_media_type dropped_needs_series watched_needs_export_ratings : WatchSyncError
  rating_type_unsupported : WatchSyncMediaType → WatchSyncError
  bad_namespace setting_not_slug setting_duplicated setting_needs_label : String → WatchSyncError
  setting_default_not_bool : String → WatchSyncError

-- `watchSyncSupportsMediaType`
unfoldable pub supports_media_type : List WatchSyncMediaType → WatchSyncMediaType → Bool
supports_media_type types want = not (eqb_ℤ want media_type_unspecified) && any (eqb_ℤ want) types

-- membership in the map `WatchSyncMediaType_name`
abbrev pub is_known_media_type : WatchSyncMediaType → Bool
is_known_media_type t = not (ltb_ℤ t (pos 0)) && ltb_ℤ t (pos 4)

abbrev pub is_rated_media_type : WatchSyncMediaType → Bool
is_rated_media_type t =
    eqb_ℤ t media_type_movie || eqb_ℤ t media_type_series || not (is_known_media_type t)

-- `watchSyncSupportsRatedMediaType`
unfoldable pub supports_rated_media_type : List WatchSyncMediaType → Bool
supports_rated_media_type types = any is_rated_media_type types

unfoldable pub has_operation : WatchSyncProviderDescriptor → Bool
has_operation w =
    w.export_watched || w.export_unwatched || w.import_watched || w.import_progress
    || w.import_favorites || w.export_favorites || w.remove_favorites || w.import_watchlist
    || w.export_watchlist || w.remove_watchlist || w.scrobble_playback || w.import_ratings
    || w.export_ratings || w.sync_dropped

abbrev pub is_bool : Any → Bool
is_bool (bool _) = true
is_bool _ = false

abbrev pub check_auth_method : WatchSyncAuthMethod → Result WatchSyncError (Unit {0})
check_auth_method m = fail_if (eqb_ℤ m auth_method_unspecified) auth_method_is_unspecified

abbrev pub check_media_type : WatchSyncMediaType → Result WatchSyncError (Unit {0})
check_media_type t = fail_if (eqb_ℤ t media_type_unspecified) media_type_is_unspecified

abbrev pub check_rating_type :
    List WatchSyncMediaType → WatchSyncMediaType → Result WatchSyncError (Unit {0})
check_rating_type types t = fail_if (not (supports_media_type types t)) (rating_type_unsupported t)

abbrev pub check_namespace : String → Result WatchSyncError (Unit {0})
check_namespace n = fail_if (not (is_slug n)) (bad_namespace n)

module _ (pkg : Packages) where
  -- The default of a BOOLEAN setting.
  abbrev pub check_setting_default :
      WatchSyncConnectionSetting → Option Value → Result WatchSyncError (Unit {0})
  check_setting_default s none = ok tt
  check_setting_default s (some v) =
      fail_if (eqb_ℤ s.type setting_type_boolean && not (is_bool (pkg.as_interface v)))
        (setting_default_not_bool s.key)

  -- `validateWatchSyncConnectionSettings`
  unfoldable pub check_settings :
      List String → List (Option WatchSyncConnectionSetting) → Result WatchSyncError (Unit {0})
  check_settings seen [] = ok tt
  check_settings seen (none ∷ settings) = check_settings seen settings
  check_settings seen (some s ∷ settings) = do
    fail_if (not (is_slug s.key)) (setting_not_slug s.key)
    fail_if (contains seen s.key) (setting_duplicated s.key)
    fail_if (str_eq (trim_space s.label) "") (setting_needs_label s.key)
    check_setting_default s s.default_value
    check_settings (s.key ∷ seen) settings

  unfoldable pub validate_connection_settings :
      List (Option WatchSyncConnectionSetting) → Result WatchSyncError (Unit {0})
  unfolding check_settings
  validate_connection_settings settings = check_settings [] settings

  unfoldable pub check_watch_sync : WatchSyncProviderDescriptor → Result WatchSyncError (Unit {0})
  unfolding has_operation supports_media_type supports_rated_media_type validate_connection_settings
  check_watch_sync w = do
    fail_if (is_empty w.auth_methods) auth_method_required
    for_each check_auth_method w.auth_methods
    fail_if (not (has_operation w)) operation_required
    fail_if (w.provides_watchlist_order && not w.import_watchlist) order_needs_import
    fail_if (ltb_ℤ w.max_batch_size (pos 1) || ltb_ℤ (pos 100) w.max_batch_size) bad_max_batch_size
    fail_if (is_empty w.supported_media_types) media_type_required
    for_each check_media_type w.supported_media_types
    fail_if
        ((w.import_ratings || w.export_ratings)
          && not (supports_rated_media_type w.supported_media_types))
        ratings_need_media_type
    fail_if (w.sync_dropped && not (supports_media_type w.supported_media_types media_type_series))
        dropped_needs_series
    fail_if (not (is_empty w.rating_export_requires_watched) && not w.export_ratings)
        watched_needs_export_ratings
    for_each (check_rating_type w.supported_media_types) w.rating_export_requires_watched
    for_each check_namespace w.external_id_namespaces
    validate_connection_settings w.connection_settings

  abbrev pub check_watch_sync_pointer :
      Option WatchSyncProviderDescriptor → Result WatchSyncError (Unit {0})
  check_watch_sync_pointer none = err descriptor_required
  check_watch_sync_pointer (some w) = check_watch_sync w

  unfoldable pub validate_watch_sync_capability :
      CapabilityDescriptor → Result WatchSyncError (Unit {0})
  unfolding check_watch_sync
  validate_watch_sync_capability d =
      if not (str_eq d.type Capability.watch_sync_provider)
      then fail_if (is_some d.watch_sync_provider) needs_type
      else do
        fail_if (not (is_slug d.id)) id_not_slug
        check_watch_sync_pointer d.watch_sync_provider
