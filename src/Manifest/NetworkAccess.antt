-- ===== src/Manifest/NetworkAccess.antt =====
-- The network_access_provider.v1 rule: validateNetworkAccessCapability.
use mathlib.Core.Option.{some-injective}
use bloem_plugin_sdk.Base.{
  ◌≡◌, refl, sym, subst, ◌≢◌, ◌↔◌, inl, inr, not, Bool-cases, Option, none, some, Result, ok, err,
  fail_if, str_eq, eq_iff, is_some, eq-none_of_is_some, passed, if◌then◌else◌, arith,
}
use bloem_plugin_sdk.Text.{is_slug}
use bloem_plugin_sdk.Text.Slug.{IsSlug, is_slug_iff}
use bloem_plugin_sdk.Capability
use bloem_plugin_sdk.Messages.{CapabilityDescriptor, NetworkAccessProviderDescriptor}

pub data NetworkAccessError : Type 0 where
  needs_type descriptor_required provider_not_slug : NetworkAccessError

abbrev check_network_access :
    Option NetworkAccessProviderDescriptor → Result NetworkAccessError (Unit {0})
check_network_access none = err descriptor_required
check_network_access (some n) = fail_if (not (is_slug n.provider)) provider_not_slug

unfoldable pub validate_network_access_capability :
    CapabilityDescriptor → Result NetworkAccessError (Unit {0})
validate_network_access_capability d =
    if not (str_eq d.type Capability.network_access_provider)
    then fail_if (is_some d.network_access_provider) needs_type
    else check_network_access d.network_access_provider

-- No descriptor on other types; on network_access_provider.v1 one whose provider is a slug.
pub record IsNetworkAccessCapability (d : CapabilityDescriptor) : Type 0 where
  pub absent : d.type ≢ Capability.network_access_provider → d.network_access_provider ≡ none
  pub present :
      d.type ≡ Capability.network_access_provider
      → (n : NetworkAccessProviderDescriptor) × (d.network_access_provider ≡ some n)
        × IsSlug n.provider

IsSlug-or_error_iff :
    (n : NetworkAccessProviderDescriptor)
    → (check_network_access (some n) ≡ ok tt) ↔ IsSlug n.provider
IsSlug-or_error_iff n = ground (arith, is_slug_iff n.provider)

check_network_access_iff :
    (o : Option NetworkAccessProviderDescriptor)
    → (check_network_access o ≡ ok tt)
      ↔ ((n : NetworkAccessProviderDescriptor) × (o ≡ some n) × IsSlug n.provider)
check_network_access_iff none = (λ h. cc, λ h. cc (h.1))
check_network_access_iff (some n) = (
  λ h. (n, refl, (IsSlug-or_error_iff n).0 h),
  λ h.
      (IsSlug-or_error_iff n).1 (subst (λ m. IsSlug m.provider) (sym (some-injective _ _ h.1)) h.2),
)

-- The network-access check of a capability succeeds exactly on well-formed capabilities.
pub validate_network_access_capability_iff :
    (d : CapabilityDescriptor)
    → (validate_network_access_capability d ≡ ok tt) ↔ IsNetworkAccessCapability d
unfolding validate_network_access_capability
validate_network_access_capability_iff d =
    let type_iff = eq_iff d.type Capability.network_access_provider in
    elim (Bool-cases (str_eq d.type Capability.network_access_provider)) [
      | inl same ↦ (
        λ h. record {
          absent = λ other. absurd (other (type_iff.0 same));
          present = λ _. (check_network_access_iff d.network_access_provider).0 (rw same at h);
        },
        λ h.
            rw same (
              (check_network_access_iff d.network_access_provider).1 (h.present (type_iff.0 same))),
      )
      | inr other ↦ (
        λ h. record {
          absent = λ _. eq-none_of_is_some d.network_access_provider (passed _ _ (rw other at h));
          present = λ e. cc (other, type_iff.1 e);
        },
        λ h. rw (other, h.absent (λ e. cc (other, type_iff.1 e))),
      )
    ]
