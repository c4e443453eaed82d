-- ===== src/Manifest/WatchSync/Settings.antt =====
-- The connection settings of a watch-sync descriptor that the validator accepts.
use bloem_plugin_sdk.Base.{
  String, ◌≡◌, refl, ◌↔◌, inl, inr, Bool, true, false, Bool-cases, Option, none, some, List, [],
  ◌∷◌, ok, All, arith, In, IsDistinct, contains-eq-false, unseen-cons_iff, unseen-nil, >>-eq-ok_iff,
  fail_if-eq-ok_iff, not,
}
use bloem_plugin_sdk.Base.Int.{eqb_ℤ, eqb_ℤ_iff}
use bloem_plugin_sdk.Text.{is_slug}
use bloem_plugin_sdk.Text.Slug.{IsSlug, is_slug_iff}
use bloem_plugin_sdk.Text.Trim.{IsBlank, label_iff}
use bloem_plugin_sdk.Values.{Value, Any, bool}
use bloem_plugin_sdk.Messages.WatchSync.{WatchSyncConnectionSetting, setting_type_boolean}
use bloem_plugin_sdk.Manifest.Packages.{Packages}
use bloem_plugin_sdk.Manifest.WatchSync.{
  is_bool, check_setting_default, check_settings, validate_connection_settings,
}

-- The keys of the settings that are not nil.
abbrev pub setting_keys : List (Option WatchSyncConnectionSetting) → List String
setting_keys [] = []
setting_keys (none ∷ settings) = setting_keys settings
setting_keys (some s ∷ settings) = s.key ∷ setting_keys settings

pub IsSlug-test_iff : (s : String) → (not (is_slug s) ≡ false) ↔ IsSlug s
IsSlug-test_iff s = ground (arith, is_slug_iff s)

module _ (pkg : Packages) where
  -- A default value, if there is one, decodes to a Boolean.
  abbrev pub IsBoolDefault : Option Value → Type 0
  IsBoolDefault none = Unit
  IsBoolDefault (some v) = (b : Bool) × (pkg.as_interface v ≡ bool b)

  -- A key that is a slug, a label, and for a BOOLEAN setting a Boolean default.
  abbrev pub IsSetting : Option WatchSyncConnectionSetting → Type 0
  IsSetting none = Unit
  IsSetting (some s) =
      IsSlug s.key
      × (¬ IsBlank s.label)
      × (s.type ≡ setting_type_boolean → IsBoolDefault s.default_value)

  is_bool_iff : (a : Any) → (is_bool a ≡ true) ↔ ((b : Bool) × (a ≡ bool b))
  is_bool_iff (bool b) = (λ h. (b, refl), λ h. refl)
  is_bool_iff a = (λ h. cc, λ h. cc (h.1))

  check_setting_default_iff :
      (s : WatchSyncConnectionSetting) (o : Option Value)
      → (check_setting_default pkg s o ≡ ok tt) ↔ (s.type ≡ setting_type_boolean → IsBoolDefault o)
  check_setting_default_iff s none = (λ h _. tt, λ h. refl)
  check_setting_default_iff s (some v) =
      let (decode, encode) = is_bool_iff (pkg.as_interface v) in
      elim (Bool-cases (is_bool (pkg.as_interface v))) [
        | inl e ↦ (λ h _. decode e, λ h. ground (arith, e))
        | inr e ↦ (
          λ h t. absurd (ground (arith, e, eqb_ℤ_iff s.type setting_type_boolean)),
          λ h. elim (Bool-cases (eqb_ℤ s.type setting_type_boolean)) [
            | inl b ↦ cc (e, encode (h ((eqb_ℤ_iff s.type setting_type_boolean).0 b)))
            | inr b ↦ rw b
          ],
        )
      ]

  check_settings_iff :
      (seen : List String) (settings : List (Option WatchSyncConnectionSetting))
      → (check_settings pkg seen settings ≡ ok tt) ↔ (
          All IsSetting settings
          × IsDistinct (setting_keys settings)
          × All (λ k. ¬ In k seen) (setting_keys settings))
  unfolding check_settings
  check_settings_iff seen [] = (λ h. (tt, tt, tt), λ h. refl)
  check_settings_iff seen (none ∷ settings) =
      let (to, from) = check_settings_iff seen settings in
      (λ h. let (a, b, c) = to h in ((tt, a), b, c), λ h. from (h.0.1, h.1, h.2))
  check_settings_iff seen (some s ∷ settings) =
      let (to, from) = check_settings_iff (s.key ∷ seen) settings in
      let apart = unseen-cons_iff s.key seen (setting_keys settings) in
      (
        λ h.
            let (slug, h1) = (>>-eq-ok_iff _ _ tt).0 h in
            let (fresh, h2) = (>>-eq-ok_iff _ _ tt).0 h1 in
            let (label, h3) = (>>-eq-ok_iff _ _ tt).0 h2 in
            let (default_ok, h4) = (>>-eq-ok_iff _ _ tt).0 h3 in
            let (valid, distinct, unseen) = to h4 in
            let (new, old) = apart.0 unseen in
            (
              (
                (
                  (IsSlug-test_iff s.key).0 ((fail_if-eq-ok_iff _ _).0 slug),
                  (label_iff s.label).0 ((fail_if-eq-ok_iff _ _).0 label),
                  (check_setting_default_iff s s.default_value).0 default_ok,
                ),
                valid,
              ),
              (new, distinct),
              ((contains-eq-false seen s.key).0 ((fail_if-eq-ok_iff _ _).0 fresh), old),
            ),
        λ h.
            let ((slug, label, default_ok), valid) = h.0 in
            rw
              (
                (IsSlug-test_iff s.key).1 slug,
                (contains-eq-false seen s.key).1 h.2.0,
                (label_iff s.label).1 label,
                (check_setting_default_iff s s.default_value).1 default_ok,
              )
              (from (valid, h.1.1, apart.1 (h.1.0, h.2.1))),
      )

  -- The settings are accepted exactly if each is well formed and no key is used twice.
  pub validate_connection_settings_iff :
      (settings : List (Option WatchSyncConnectionSetting))
      → (validate_connection_settings pkg settings ≡ ok tt)
        ↔ (All IsSetting settings × IsDistinct (setting_keys settings))
  unfolding validate_connection_settings
  validate_connection_settings_iff settings =
      let (to, from) = check_settings_iff [] settings in
      (
        λ h. let (a, b, _) = to h in (a, b),
        λ h. from (h.0, h.1, unseen-nil (setting_keys settings)),
      )
