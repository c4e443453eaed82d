-- ===== src/Manifest/Auth.antt =====
-- The auth_provider.v1 rules: validateAuthProviderCapability, validateNetworkAuthPairing, and the
-- two questions that the host and the runtime ask of an auth capability.
pub mod Modes
pub mod Laws
use bloem_plugin_sdk.Base.{
  ℕ, String, Bool, true, false, not, ◌&&◌, Option, none, some, List, [], ◌∷◌, str_eq, Result, ok,
  err, ◌>>=◌, ◌>>◌, fail_if, for_each, contains, lookup, is_some, if◌then◌else◌,
}
use bloem_plugin_sdk.Text.{trim_space, equal_fold}
use bloem_plugin_sdk.Values.{Value, bool_value}
use bloem_plugin_sdk.Capability
use bloem_plugin_sdk.Messages.{CapabilityDescriptor, Struct, deref}

abbrev pub auth_mode_password : String
auth_mode_password = "password"

abbrev pub auth_mode_oauth2 : String
auth_mode_oauth2 = "oauth2"

abbrev pub auth_mode_network : String
auth_mode_network = "network"

abbrev pub auth_provider_connection_test_key : String
auth_provider_connection_test_key = "connection_test"

pub data AuthError : Type 0 where
  empty_mode : AuthError
  must_be_spelled : String → String → AuthError
  duplicate_mode : String → AuthError
  cannot_combine : String → AuthError
  connection_test_not_bool : AuthError

-- The known modes, which a mode must not merely resemble.
abbrev pub known_modes : List String
known_modes = auth_mode_password ∷ auth_mode_oauth2 ∷ auth_mode_network ∷ []

-- The entry of a `*structpb.Struct`, which may be nil.
abbrev pub metadata_entry : String → Option Struct → Option Value
metadata_entry key none = none
metadata_entry key (some fields) = lookup key fields

abbrev pub is_bool_value : Value → Bool
is_bool_value (bool_value b) = true
is_bool_value _ = false

-- `GetBoolValue`, also on a missing entry
abbrev pub get_bool_value : Option Value → Bool
get_bool_value (some (bool_value b)) = b
get_bool_value _ = false

abbrev pub check_connection_test : Option Value → Result AuthError (Unit {0})
check_connection_test none = ok tt
check_connection_test (some v) = fail_if (not (is_bool_value v)) connection_test_not_bool

-- `AuthProviderUsesNetworkIdentity`
unfoldable pub auth_provider_uses_network_identity : CapabilityDescriptor → Bool
auth_provider_uses_network_identity d =
    if not (str_eq d.type Capability.auth_provider)
    then false
    else contains d.auth_modes auth_mode_network

-- `AuthProviderSupportsConnectionTest`
unfoldable pub auth_provider_supports_connection_test : CapabilityDescriptor → Bool
auth_provider_supports_connection_test d =
    if not (str_eq d.type Capability.auth_provider)
    then false
    else get_bool_value (metadata_entry auth_provider_connection_test_key d.metadata)

module _ (fold : ℕ → ℕ) where
  abbrev pub check_spelling : String → String → Result AuthError (Unit {0})
  check_spelling mode known =
      fail_if (not (str_eq mode known) && equal_fold fold mode known) (must_be_spelled mode known)

  -- The loop over the modes, which returns the set of those it has seen.
  unfoldable pub check_modes : List String → List String → Result AuthError (List String)
  check_modes seen [] = ok seen
  check_modes seen (mode ∷ modes) = do
    fail_if (str_eq (trim_space mode) "") empty_mode
    for_each (check_spelling mode) known_modes
    fail_if (contains seen mode) (duplicate_mode mode)
    check_modes (mode ∷ seen) modes

  abbrev pub check_credentials : List String → String → Result AuthError (Unit {0})
  check_credentials seen credentials =
      fail_if (contains seen credentials) (cannot_combine credentials)

  unfoldable pub check_network_alone : List String → Result AuthError (Unit {0})
  check_network_alone seen =
      if contains seen auth_mode_network
      then for_each (check_credentials seen) (auth_mode_password ∷ auth_mode_oauth2 ∷ [])
      else ok tt

  unfoldable pub validate_auth_provider_capability :
      CapabilityDescriptor → Result AuthError (Unit {0})
  unfolding check_modes check_network_alone
  validate_auth_provider_capability d =
      if not (str_eq d.type Capability.auth_provider) then ok tt else do
        seen ← check_modes [] d.auth_modes
        check_network_alone seen
        check_connection_test (metadata_entry auth_provider_connection_test_key d.metadata)

-- The variables of the loop in `validateNetworkAuthPairing`.
pub record Pairing : Type 0 where
  pub network_auth : Option CapabilityDescriptor
  pub has_network_access : Bool

-- One round; a nil descriptor has the empty type, so it is neither.
unfoldable pub pairing_step : Pairing → Option CapabilityDescriptor → Pairing
unfolding auth_provider_uses_network_identity
pairing_step p d = record {
  network_auth =
      if auth_provider_uses_network_identity (deref d) && not (is_some p.network_auth)
      then d
      else p.network_auth;
  has_network_access =
      if str_eq (deref d).type Capability.network_access_provider
      then true
      else p.has_network_access;
}

unfoldable pub pairing_from : Pairing → List (Option CapabilityDescriptor) → Pairing
unfolding pairing_step
pairing_from p [] = p
pairing_from p (d ∷ ds) = pairing_from (pairing_step p d) ds

pub data PairingError : Type 0 where
  needs_network_access : String → PairingError

abbrev pub check_pairing : Option CapabilityDescriptor → Bool → Result PairingError (Unit {0})
check_pairing none has_network_access = ok tt
check_pairing (some d) has_network_access =
    fail_if (not has_network_access) (needs_network_access d.id)

unfoldable pub validate_network_auth_pairing :
    List (Option CapabilityDescriptor) → Result PairingError (Unit {0})
unfolding pairing_from
validate_network_auth_pairing capabilities =
    let p =
      pairing_from (record { network_auth = none; has_network_access = false }) capabilities in
    check_pairing p.network_auth p.has_network_access
