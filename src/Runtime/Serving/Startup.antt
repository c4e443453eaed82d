-- ===== src/Runtime/Serving/Startup.antt =====
-- The startup checks of manifestServeConfig, and what they secure about the services registered.

use bloem_plugin_sdk.Base.{
  true, false, Option, some, List, [], ◌∷◌, is_some, Result, ok, for_each, All, for_each_iff,
  fail_if-eq-ok_iff, >>-eq-ok_iff, ◌≡◌, refl, ap, inl, inr, ◌↔◌, In, All-In, Bool-cases,
}
use bloem_plugin_sdk.Messages.{PluginManifest, CapabilityDescriptor, deref}
use bloem_plugin_sdk.Manifest.Auth.{
  auth_provider_uses_network_identity, auth_provider_supports_connection_test,
}
use bloem_plugin_sdk.Runtime.Servers.{
  Server, manifest_runtime, implements_checks, implements_network, CapabilityServers,
  resolve_auth_service,
}
use bloem_plugin_sdk.Runtime.Serving.{
  ServeManifestOptions, ServeManifestOption, ServeConfig, ConfigError, Rule, no_options,
  apply_options, manifest_plugin_set, rules, check_rule, check_declares, manifest_serve_config,
}

-- The servers that stand for the two auth services.
abbrev pub checks_server : CapabilityServers → ServeManifestOptions → Option Server
checks_server s o = resolve_auth_service implements_checks s.auth_provider o.auth_provider_checks

abbrev pub network_server : CapabilityServers → ServeManifestOptions → Option Server
network_server s o = resolve_auth_service implements_network s.auth_provider o.network_identity_auth

-- What a capability needs: checks for a connection test, both services for the network mode.
pub record IsServed (s : CapabilityServers) (o : ServeManifestOptions) (d : CapabilityDescriptor)
    : Type 0 where
  pub tested : auth_provider_supports_connection_test d ≡ true → is_some (checks_server s o) ≡ true
  pub checked : auth_provider_uses_network_identity d ≡ true → is_some (checks_server s o) ≡ true
  pub identified :
      auth_provider_uses_network_identity d ≡ true → is_some (network_server s o) ≡ true

-- A rule holds of a capability.
abbrev Obeys : Rule → Option CapabilityDescriptor → Type 0
Obeys rule d = rule.declares (deref d) ≡ true → rule.registered ≡ true

All-of {ℓ} : {A : Type 0} {P : A → Type ℓ} (xs : List A) → ((x : A) → In x xs → P x) → All P xs
All-of [] h = tt
All-of (x ∷ xs) h = (h x (inl refl), All-of xs (λ y m. h y (inr m)))

check_declares_iff :
    (rule : Rule) (d : Option CapabilityDescriptor)
    → (check_declares rule d ≡ ok tt) ↔ (rule.declares (deref d) ≡ false)
check_declares_iff rule d = fail_if-eq-ok_iff _ _

check_rule_iff :
    (cs : List (Option CapabilityDescriptor)) (rule : Rule)
    → (check_rule cs rule ≡ ok tt) ↔ ((d : Option CapabilityDescriptor) → In d cs → Obeys rule d)
check_rule_iff cs rule = elim (Bool-cases rule.registered) [
  | inl e ↦ (λ h d m t. e, λ h. rw e refl)
  | inr e ↦
      let each = for_each_iff (check_declares rule) (check_declares_iff rule) cs in
      (
        λ h d m t. let f = All-In _ cs (each.0 (rw e at h)) m in cc (f, t),
        λ h. rw e (
            each.1 (
              All-of cs (λ d m. elim (Bool-cases (rule.declares (deref d))) [
                | inl t ↦ cc (h d m t, e)
                | inr f ↦ f
              ]))),
      )
]

ok-injective : {A : Type 0} {a c : A} → ◌≡◌ {A = Result ConfigError A} (ok a) (ok c) → a ≡ c
ok-injective h = cc h

module _ (m : PluginManifest) (s : CapabilityServers)
    (options : List (Option ServeManifestOption)) where
  abbrev resolved : ServeManifestOptions
  resolved = apply_options options no_options

  -- The configuration that is served when no check fails.
  abbrev pub config_of : ServeConfig
  config_of =
      let t : CapabilityServers = record s {
        runtime = some (manifest_runtime m resolved.configure);
      } in
      record { servers = t; plugins = manifest_plugin_set t resolved }

  rules_iff :
      (for_each
          (check_rule m.capabilities)
          (rules (is_some (checks_server s resolved)) (is_some (network_server s resolved)))
        ≡ ok tt)
      ↔ ((d : Option CapabilityDescriptor) → In d m.capabilities → IsServed s resolved (deref d))
  unfolding rules
  rules_iff =
      let each =
        for_each_iff (check_rule m.capabilities) (check_rule_iff m.capabilities)
          (rules (is_some (checks_server s resolved)) (is_some (network_server s resolved))) in
      (
        λ h d i.
            let (t, (c, (n, z))) = each.0 h in
            record { tested = t d i; checked = c d i; identified = n d i },
        λ h. each.1 (
          (λ d i. (h d i).tested),
          ((λ d i. (h d i).checked), ((λ d i. (h d i).identified), tt)),
        ),
      )

  -- ServeManifest's startup checks pass exactly when every capability that declares a connection
  -- test has an AuthProviderChecks server and every capability of the network mode has both an
  -- AuthProviderChecks and a NetworkIdentityAuth server; then the configuration served is the one
  -- with the default Runtime server and its plugin set.
  pub manifest_serve_config-eq-ok_iff :
      (cfg : ServeConfig)
      → (manifest_serve_config m s options ≡ ok cfg) ↔ (
          ((d : Option CapabilityDescriptor) → In d m.capabilities → IsServed s resolved (deref d))
          × (config_of ≡ cfg))
  unfolding manifest_serve_config rules
  manifest_serve_config-eq-ok_iff cfg = (
    λ h. let (a, c) = (>>-eq-ok_iff _ _ cfg).0 h in (rules_iff.0 a, ok-injective c),
    λ h. (>>-eq-ok_iff _ _ cfg).1 (rules_iff.1 h.0, ap ok h.1),
  )
