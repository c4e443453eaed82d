-- ===== src/Manifest/WatchSync/Laws.antt =====
-- Which watch-sync descriptors the validator accepts.
use mathlib.Core.Option.{some-injective}
use bloem_plugin_sdk.Base.{
  String, ◌≡◌, refl, ◌≢◌, ◌↔◌, ◌⊎◌, inl, inr, Bool, true, false, not, ◌&&◌, ◌||◌, Bool-cases,
  Option, none, some, List, [], ◌∷◌, ok, All, arith, eq_iff, In, IsDistinct, is_empty_iff, any,
  any_sound, any_complete, is_empty, >>-eq-ok_iff, for_each_iff, str_eq, sym, passed,
  eq-none_of_is_some, subst,
}
use bloem_plugin_sdk.Base.Int.{ℤ, pos, ◌≤ℤ◌, ltb_ℤ, eqb_ℤ, eqb_ℤ_iff}
use bloem_plugin_sdk.Text.Slug.{IsSlug, is_slug_iff}
use bloem_plugin_sdk.Capability
use bloem_plugin_sdk.Messages.{CapabilityDescriptor}
use bloem_plugin_sdk.Messages.WatchSync.{
  WatchSyncMediaType, WatchSyncProviderDescriptor, auth_method_unspecified, media_type_unspecified,
  media_type_movie, media_type_series,
}
use bloem_plugin_sdk.Manifest.Packages.{Packages}
use bloem_plugin_sdk.Manifest.WatchSync.{
  supports_media_type, is_rated_media_type, supports_rated_media_type, has_operation,
  check_auth_method, check_media_type, check_rating_type, check_namespace, check_watch_sync,
  check_watch_sync_pointer, validate_watch_sync_capability,
}
use bloem_plugin_sdk.Manifest.WatchSync.Settings.{
  setting_keys, IsSetting, IsSlug-test_iff, validate_connection_settings_iff,
}

abbrev pub operations : WatchSyncProviderDescriptor → List Bool
operations w =
    w.export_watched ∷ w.export_unwatched ∷ w.import_watched ∷ w.import_progress
    ∷ w.import_favorites ∷ w.export_favorites ∷ w.remove_favorites ∷ w.import_watchlist
    ∷ w.export_watchlist ∷ w.remove_watchlist ∷ w.scrobble_playback ∷ w.import_ratings
    ∷ w.export_ratings ∷ w.sync_dropped ∷ []

-- A media type that the host can rate: a movie, a series, or one that this SDK does not define.
abbrev pub IsRated : WatchSyncMediaType → Type 0
IsRated t = (t ≡ media_type_movie) ⊎ (t ≡ media_type_series) ⊎ ¬ ((pos 0 ≤ℤ t) × (t ≤ℤ pos 3))

pub record IsWatchSync (pkg : Packages) (w : WatchSyncProviderDescriptor) : Type 0 where
  pub some_auth_method : w.auth_methods ≢ []
  pub auth_methods : All (λ m. m ≢ auth_method_unspecified) w.auth_methods
  pub operation : In true (operations w)
  pub order : w.provides_watchlist_order ≡ true → w.import_watchlist ≡ true
  pub batch_size : (pos 1 ≤ℤ w.max_batch_size) × (w.max_batch_size ≤ℤ pos 100)
  pub some_media_type : w.supported_media_types ≢ []
  pub media_types : All (λ t. t ≢ media_type_unspecified) w.supported_media_types
  pub ratings :
      (w.import_ratings ≡ true) ⊎ (w.export_ratings ≡ true)
      → (t : WatchSyncMediaType) × In t w.supported_media_types × IsRated t
  pub dropped : w.sync_dropped ≡ true → In media_type_series w.supported_media_types
  pub watched_exports : w.rating_export_requires_watched ≢ [] → w.export_ratings ≡ true
  pub watched_types :
      All
        (λ t. (t ≢ media_type_unspecified) × In t w.supported_media_types)
        w.rating_export_requires_watched
  pub namespaces : All IsSlug w.external_id_namespaces
  pub settings : All (IsSetting pkg) w.connection_settings
  pub setting_keys_distinct : IsDistinct (setting_keys w.connection_settings)

unequal_iff : (a b : ℤ) → (eqb_ℤ a b ≡ false) ↔ (a ≢ b)
unequal_iff a b = ground (arith, eqb_ℤ_iff a b)

any_eqb_iff : (t : ℤ) (ts : List ℤ) → (any (eqb_ℤ t) ts ≡ true) ↔ In t ts
unfolding any
any_eqb_iff t [] = (λ h. cc, λ h. absurd h)
any_eqb_iff t (x ∷ ts) = ground (arith, eqb_ℤ_iff t x, any_eqb_iff t ts)

supports_media_type_iff :
    (ts : List ℤ) (t : ℤ)
    → (supports_media_type ts t ≡ true) ↔ ((t ≢ media_type_unspecified) × In t ts)
unfolding supports_media_type
supports_media_type_iff ts t =
    ground (arith, any_eqb_iff t ts, unequal_iff t media_type_unspecified)

is_rated_iff : (t : ℤ) → (is_rated_media_type t ≡ true) ↔ IsRated t
is_rated_iff t = ground (arith, eqb_ℤ_iff t media_type_movie, eqb_ℤ_iff t media_type_series)

supports_rated_iff :
    (ts : List ℤ) → (supports_rated_media_type ts ≡ true) ↔ ((t : ℤ) × In t ts × IsRated t)
unfolding supports_rated_media_type
supports_rated_iff ts = (
  λ h. let (t, m, r) = any_sound is_rated_media_type ts h in (t, m, (is_rated_iff t).0 r),
  λ h. any_complete is_rated_media_type ts h.1 ((is_rated_iff h.0).1 h.2),
)

has_operation_iff :
    (w : WatchSyncProviderDescriptor) → (has_operation w ≡ true) ↔ In true (operations w)
unfolding has_operation
has_operation_iff w = ground arith

not-eq-false : (b : Bool) → (not b ≡ false) ↔ (b ≡ true)
not-eq-false b = ground arith

implies_iff : (a b : Bool) → ((a && not b) ≡ false) ↔ (a ≡ true → b ≡ true)
implies_iff a b = ground arith

batch_iff :
    (m : ℤ) → ((ltb_ℤ m (pos 1) || ltb_ℤ (pos 100) m) ≡ false) ↔ ((pos 1 ≤ℤ m) × (m ≤ℤ pos 100))
batch_iff m = ground arith

ratings_iff :
    (w : WatchSyncProviderDescriptor)
    → (((w.import_ratings || w.export_ratings)
          && not (supports_rated_media_type w.supported_media_types))
        ≡ false)
      ↔ ((w.import_ratings ≡ true) ⊎ (w.export_ratings ≡ true)
          → (t : WatchSyncMediaType) × In t w.supported_media_types × IsRated t)
ratings_iff w =
    let (to, from) = supports_rated_iff w.supported_media_types in
    elim (Bool-cases (supports_rated_media_type w.supported_media_types)) [
      | inl e ↦ (λ h _. to e, λ h. ground (arith, e))
      | inr e ↦ (
        λ h asked. absurd (ground (arith, e)),
        λ h. elim (Bool-cases (w.import_ratings || w.export_ratings)) [
          | inl asked ↦ cc (e, from (h (ground arith)))
          | inr quiet ↦ rw quiet
        ],
      )
    ]

watched_iff :
    (ts : List WatchSyncMediaType) (b : Bool)
    → ((not (is_empty ts) && not b) ≡ false) ↔ (ts ≢ [] → b ≡ true)
watched_iff [] b = (λ h k. absurd (k refl), λ h. refl)
watched_iff (t ∷ ts) true = (λ h k. refl, λ h. refl)
watched_iff (t ∷ ts) false = (λ h k. cc, λ h. cc (h (cc)))

dropped_iff :
    (w : WatchSyncProviderDescriptor)
    → ((w.sync_dropped && not (supports_media_type w.supported_media_types media_type_series))
        ≡ false)
      ↔ (w.sync_dropped ≡ true → In media_type_series w.supported_media_types)
dropped_iff w =
    let (to, from) = supports_media_type_iff w.supported_media_types media_type_series in
    let holds =
      implies_iff w.sync_dropped (supports_media_type w.supported_media_types media_type_series) in
    (λ h d. (to (holds.0 h d)).1, λ h. holds.1 (λ d. from ((ground arith), h d)))

auth_method_iff : (m : ℤ) → (check_auth_method m ≡ ok tt) ↔ (m ≢ auth_method_unspecified)
auth_method_iff m = ground (arith, unequal_iff m auth_method_unspecified)

media_type_iff : (t : ℤ) → (check_media_type t ≡ ok tt) ↔ (t ≢ media_type_unspecified)
media_type_iff t = ground (arith, unequal_iff t media_type_unspecified)

rating_type_iff :
    (ts : List ℤ) (t : ℤ)
    → (check_rating_type ts t ≡ ok tt) ↔ ((t ≢ media_type_unspecified) × In t ts)
rating_type_iff ts t = ground (arith, supports_media_type_iff ts t)

namespace_iff : (n : String) → (check_namespace n ≡ ok tt) ↔ IsSlug n
namespace_iff n = ground (arith, is_slug_iff n)

module _ (pkg : Packages) where
  check_watch_sync_sound :
      (w : WatchSyncProviderDescriptor) → check_watch_sync pkg w ≡ ok tt → IsWatchSync pkg w
  unfolding check_watch_sync
  check_watch_sync_sound w h0 =
      let (auth, h1) = (>>-eq-ok_iff _ _ tt).0 h0 in
      let (auths, h2) = (>>-eq-ok_iff _ _ tt).0 h1 in
      let (operation, h3) = (>>-eq-ok_iff _ _ tt).0 h2 in
      let (order, h4) = (>>-eq-ok_iff _ _ tt).0 h3 in
      let (batch, h5) = (>>-eq-ok_iff _ _ tt).0 h4 in
      let (media, h6) = (>>-eq-ok_iff _ _ tt).0 h5 in
      let (medias, h7) = (>>-eq-ok_iff _ _ tt).0 h6 in
      let (ratings, h8) = (>>-eq-ok_iff _ _ tt).0 h7 in
      let (dropped, h9) = (>>-eq-ok_iff _ _ tt).0 h8 in
      let (watched, h10) = (>>-eq-ok_iff _ _ tt).0 h9 in
      let (types, h11) = (>>-eq-ok_iff _ _ tt).0 h10 in
      let (namespaces, settings) = (>>-eq-ok_iff _ _ tt).0 h11 in
      let settings_ok = (validate_connection_settings_iff pkg w.connection_settings).0 settings in
      record {
        some_auth_method = (is_empty_iff w.auth_methods).0 (passed _ _ auth);
        auth_methods = (for_each_iff check_auth_method auth_method_iff w.auth_methods).0 auths;
        operation = (has_operation_iff w).0 ((not-eq-false _).0 (passed _ _ operation));
        order = (implies_iff _ _).0 (passed _ _ order);
        batch_size = (batch_iff w.max_batch_size).0 (passed _ _ batch);
        some_media_type = (is_empty_iff w.supported_media_types).0 (passed _ _ media);
        media_types =
            (for_each_iff check_media_type media_type_iff w.supported_media_types).0 medias;
        ratings = (ratings_iff w).0 (passed _ _ ratings);
        dropped = (dropped_iff w).0 (passed _ _ dropped);
        watched_exports = (watched_iff _ _).0 (passed _ _ watched);
        watched_types = (for_each_iff _ (rating_type_iff w.supported_media_types) _).0 types;
        namespaces = (for_each_iff check_namespace namespace_iff _).0 namespaces;
        settings = settings_ok.0;
        setting_keys_distinct = settings_ok.1;
      }

  check_watch_sync_complete :
      (w : WatchSyncProviderDescriptor) → IsWatchSync pkg w → check_watch_sync pkg w ≡ ok tt
  unfolding check_watch_sync
  check_watch_sync_complete w h =
      rw
        (
          (is_empty_iff w.auth_methods).1 h.some_auth_method,
          (for_each_iff check_auth_method auth_method_iff w.auth_methods).1 h.auth_methods,
          (not-eq-false _).1 ((has_operation_iff w).1 h.operation),
          (implies_iff _ _).1 h.order,
          (batch_iff w.max_batch_size).1 h.batch_size,
          (is_empty_iff w.supported_media_types).1 h.some_media_type,
          (for_each_iff check_media_type media_type_iff w.supported_media_types).1 h.media_types,
          (ratings_iff w).1 h.ratings,
          (dropped_iff w).1 h.dropped,
          (watched_iff _ _).1 h.watched_exports,
          (for_each_iff _ (rating_type_iff w.supported_media_types) _).1 h.watched_types,
          (for_each_iff check_namespace namespace_iff _).1 h.namespaces,
        )
        ((validate_connection_settings_iff pkg w.connection_settings).1
          (h.settings, h.setting_keys_distinct))

  -- What a descriptor must satisfy in its watch-sync part: none on other types, and on
  -- watch_sync_provider.v1 a slug for an id and a well-formed descriptor.
  pub record IsWatchSyncCapability (d : CapabilityDescriptor) : Type 0 where
    pub absent : d.type ≢ Capability.watch_sync_provider → d.watch_sync_provider ≡ none
    pub present :
        d.type ≡ Capability.watch_sync_provider
        → IsSlug d.id
          × ((w : WatchSyncProviderDescriptor) × (d.watch_sync_provider ≡ some w)
              × IsWatchSync pkg w)

  pointer_iff :
      (o : Option WatchSyncProviderDescriptor)
      → (check_watch_sync_pointer pkg o ≡ ok tt)
        ↔ ((w : WatchSyncProviderDescriptor) × (o ≡ some w) × IsWatchSync pkg w)
  pointer_iff none = (λ h. cc, λ h. cc (h.1))
  pointer_iff (some w) = (
    λ h. (w, refl, check_watch_sync_sound w h),
    λ h. check_watch_sync_complete w (subst (IsWatchSync pkg) (sym (some-injective _ _ h.1)) h.2),
  )

  -- The watch-sync check of a capability succeeds exactly on well-formed capabilities.
  pub validate_watch_sync_capability_iff :
      (d : CapabilityDescriptor)
      → (validate_watch_sync_capability pkg d ≡ ok tt) ↔ IsWatchSyncCapability d
  unfolding validate_watch_sync_capability
  validate_watch_sync_capability_iff d =
      elim (Bool-cases (str_eq d.type Capability.watch_sync_provider)) [
        | inl same ↦
            let is_type = (eq_iff d.type Capability.watch_sync_provider).0 same in
            (
              λ h.
                  let (slug, checked) = (>>-eq-ok_iff _ _ tt).0 (rw same at h) in
                  record {
                    absent = λ other. absurd (other is_type);
                    present = λ _. (
                      (IsSlug-test_iff d.id).0 (passed _ _ slug),
                      (pointer_iff d.watch_sync_provider).0 checked,
                    );
                  },
              λ h.
                  let (slug, found) = h.present is_type in
                  rw (same, (IsSlug-test_iff d.id).1 slug)
                    ((pointer_iff d.watch_sync_provider).1 found),
            )
        | inr other ↦ (
          λ h. record {
            absent = λ _. eq-none_of_is_some d.watch_sync_provider (passed _ _ (rw other at h));
            present = λ e. cc (other, (eq_iff d.type Capability.watch_sync_provider).1 e);
          },
          λ h. rw (
            other,
            h.absent (λ e. cc (other, (eq_iff d.type Capability.watch_sync_provider).1 e)),
          ),
        )
      ]
