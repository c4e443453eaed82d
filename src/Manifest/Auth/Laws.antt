-- ===== src/Manifest/Auth/Laws.antt =====
-- Which auth capabilities the validator accepts, and the pairing rule across a manifest.
use bloem_plugin_sdk.Base.{
  ℕ, String, ◌≡◌, refl, ◌↔◌, ◌⊎◌, inl, inr, Bool, true, false, not, ◌&&◌, Bool-cases, Option, none,
  some, List, [], ◌∷◌, ok, >>=-eq-ok, >>-eq-ok_iff, passed, All, In, IsDistinct, contains,
  contains-eq-false, contains→In, In→contains, unseen-nil, is_some, str_eq, eq_iff, subst,
  if◌then◌else◌, arith,
}
use bloem_plugin_sdk.Values.{Value, bool_value}
use bloem_plugin_sdk.Capability
use bloem_plugin_sdk.Messages.{CapabilityDescriptor, deref}
use bloem_plugin_sdk.Manifest.Auth.{
  auth_mode_password, auth_mode_oauth2, auth_mode_network, auth_provider_connection_test_key,
  metadata_entry, check_connection_test, check_network_alone, validate_auth_provider_capability,
  auth_provider_uses_network_identity, Pairing, pairing_step, pairing_from, check_pairing,
  validate_network_auth_pairing,
}
use bloem_plugin_sdk.Manifest.Auth.Modes.{
  IsMode, modes_seen, In-modes_seen_iff, check_modes_sound, check_modes_complete,
}

-- A missing entry, or a Boolean.
abbrev pub IsBoolEntry : Option Value → Type 0
IsBoolEntry none = Unit
IsBoolEntry (some v) = (b : Bool) × (v ≡ bool_value b)

check_connection_test_iff : (o : Option Value) → (check_connection_test o ≡ ok tt) ↔ IsBoolEntry o
check_connection_test_iff none = (λ h. tt, λ h. refl)
check_connection_test_iff (some (bool_value b)) = (λ h. (b, refl), λ h. refl)
check_connection_test_iff (some v) = (λ h. cc, λ h. cc (h.1))

-- "network" stands beside neither "password" nor "oauth2".
abbrev pub IsNetworkAlone : List String → Type 0
IsNetworkAlone modes =
    In auth_mode_network modes → (¬ In auth_mode_password modes) × (¬ In auth_mode_oauth2 modes)

check_network_alone_iff :
    (fold : ℕ → ℕ) (seen : List String)
    → (check_network_alone fold seen ≡ ok tt) ↔ IsNetworkAlone seen
unfolding check_network_alone
check_network_alone_iff fold seen = elim (Bool-cases (contains seen auth_mode_network)) [
  | inl network ↦ (
    λ h _.
        let (password, rest) = (>>-eq-ok_iff _ _ tt).0 (rw network at h) in
        let (oauth2, _) = (>>-eq-ok_iff _ _ tt).0 rest in
        (
          (contains-eq-false seen auth_mode_password).0 (passed _ _ password),
          (contains-eq-false seen auth_mode_oauth2).0 (passed _ _ oauth2),
        ),
    λ h.
        let (password, oauth2) = h (contains→In seen auth_mode_network network) in
        rw (
          network,
          (contains-eq-false seen auth_mode_password).1 password,
          (contains-eq-false seen auth_mode_oauth2).1 oauth2,
        ),
  )
  | inr other ↦ (λ h m. cc (other, In→contains seen auth_mode_network m), λ h. rw other)
]

-- What an auth_provider.v1 capability must satisfy.
pub record IsAuthProvider (fold : ℕ → ℕ) (d : CapabilityDescriptor) : Type 0 where
  pub modes : All (IsMode fold) d.auth_modes
  pub distinct : IsDistinct d.auth_modes
  pub network_alone : IsNetworkAlone d.auth_modes
  pub connection_test : IsBoolEntry (metadata_entry auth_provider_connection_test_key d.metadata)

abbrev pub IsAuthCapability : (ℕ → ℕ) → CapabilityDescriptor → Type 0
IsAuthCapability fold d = d.type ≡ Capability.auth_provider → IsAuthProvider fold d

-- The returned set has the same members as the modes.
seen_iff : (k : String) (modes : List String) → In k (modes_seen [] modes) ↔ In k modes
seen_iff k modes =
    let (to, from) = In-modes_seen_iff k [] modes in
    (λ h. elim (to h) [ inl m ↦ absurd m | inr n ↦ n ], λ h. from (inr h))

IsNetworkAlone-modes_seen_iff :
    (modes : List String) → IsNetworkAlone (modes_seen [] modes) ↔ IsNetworkAlone modes
IsNetworkAlone-modes_seen_iff modes =
    let network = seen_iff auth_mode_network modes in
    let password = seen_iff auth_mode_password modes in
    let oauth2 = seen_iff auth_mode_oauth2 modes in
    (
      λ h m. let (p, o) = h (network.1 m) in ((λ n. p (password.1 n)), (λ n. o (oauth2.1 n))),
      λ h m. let (p, o) = h (network.0 m) in ((λ n. p (password.0 n)), (λ n. o (oauth2.0 n))),
    )

module _ (fold : ℕ → ℕ) (d : CapabilityDescriptor) where
  type_iff : (str_eq d.type Capability.auth_provider ≡ true) ↔ (d.type ≡ Capability.auth_provider)
  type_iff = eq_iff d.type Capability.auth_provider

  -- The auth check of a capability succeeds exactly on well-formed capabilities.
  pub validate_auth_provider_capability_iff :
      (validate_auth_provider_capability fold d ≡ ok tt) ↔ IsAuthCapability fold d
  unfolding validate_auth_provider_capability
  validate_auth_provider_capability_iff =
      elim (Bool-cases (str_eq d.type Capability.auth_provider)) [
        | inl same ↦ (
          λ h _.
              let (found, checked, rest) = >>=-eq-ok _ _ tt (rw same at h) in
              let (modes, distinct, _, is_seen) =
                check_modes_sound fold [] d.auth_modes found checked in
              let (alone, connection) = (>>-eq-ok_iff _ _ tt).0 rest in
              record {
                modes = modes;
                distinct = distinct;
                network_alone =
                    (IsNetworkAlone-modes_seen_iff d.auth_modes).0
                      (subst IsNetworkAlone is_seen ((check_network_alone_iff fold found).0 alone));
                connection_test = (check_connection_test_iff _).0 connection;
              },
          λ h.
              let a = h (type_iff.0 same) in
              rw
                (
                  same,
                  check_modes_complete fold [] d.auth_modes a.modes a.distinct
                      (unseen-nil d.auth_modes),
                  (check_network_alone_iff fold (modes_seen [] d.auth_modes)).1
                      ((IsNetworkAlone-modes_seen_iff d.auth_modes).1 a.network_alone),
                )
                ((check_connection_test_iff _).1 a.connection_test),
        )
        | inr other ↦ (λ h e. cc (other, type_iff.1 e), λ h. rw other)
      ]

-- An auth capability with the "network" mode.
abbrev pub UsesNetworkIdentity : CapabilityDescriptor → Type 0
UsesNetworkIdentity d = (d.type ≡ Capability.auth_provider) × In auth_mode_network d.auth_modes

-- The test for network sign-in succeeds exactly on a capability of the auth-provider type that lists
-- the network mode.
pub UsesNetworkIdentity-iff :
    (d : CapabilityDescriptor)
    → (auth_provider_uses_network_identity d ≡ true) ↔ UsesNetworkIdentity d
unfolding auth_provider_uses_network_identity
UsesNetworkIdentity-iff d = elim (Bool-cases (str_eq d.type Capability.auth_provider)) [
  | inl same ↦ (
    λ h. (
      (eq_iff d.type Capability.auth_provider).0 same,
      contains→In d.auth_modes auth_mode_network (rw same at h),
    ),
    λ h. rw same (In→contains d.auth_modes auth_mode_network h.1),
  )
  | inr other ↦
      (λ h. cc (rw other at h), λ h. cc (other, (eq_iff d.type Capability.auth_provider).1 h.0))
]

-- Wherever a capability signs people in by the network, some capability gives network access.
abbrev pub IsPaired : List (Option CapabilityDescriptor) → Type 0
IsPaired capabilities =
    (d : Option CapabilityDescriptor)
    → In d capabilities
    → UsesNetworkIdentity (deref d)
    → (e : Option CapabilityDescriptor) × In e capabilities
      × ((deref e).type ≡ Capability.network_access_provider)

keep_first_iff :
    {P : Type 0} (u : Bool) (o : Option CapabilityDescriptor) (d : CapabilityDescriptor)
    → (u ≡ true) ↔ P
    → (is_some (if u && not (is_some o) then some d else o) ≡ true) ↔ ((is_some o ≡ true) ⊎ P)
keep_first_iff true none d e = (λ h. inr (e.0 refl), λ h. refl)
keep_first_iff false none d e = (λ h. cc, λ h. elim h [ inl f ↦ cc | inr q ↦ cc (e.1 q) ])
keep_first_iff true (some c) d e = (λ h. inl refl, λ h. refl)
keep_first_iff false (some c) d e = (λ h. inl refl, λ h. refl)

step_network :
    (p : Pairing) (d : Option CapabilityDescriptor)
    → (is_some (pairing_step p d).network_auth ≡ true)
      ↔ ((is_some p.network_auth ≡ true) ⊎ UsesNetworkIdentity (deref d))
unfolding pairing_step
step_network p none = (inl, λ h. elim h [ inl e ↦ e | inr u ↦ absurd u.1 ])
step_network p (some d) = keep_first_iff _ p.network_auth d (UsesNetworkIdentity-iff d)

step_access :
    (p : Pairing) (d : Option CapabilityDescriptor)
    → ((pairing_step p d).has_network_access ≡ true)
      ↔ ((p.has_network_access ≡ true) ⊎ ((deref d).type ≡ Capability.network_access_provider))
unfolding pairing_step
step_access p d = ground (arith, eq_iff (deref d).type Capability.network_access_provider)

-- What the loop has found at its end: what it had found before, or one of the rest.
module _ {P : Option CapabilityDescriptor → Type 0} {found : Pairing → Bool}
    (step : (p : Pairing) (d : Option CapabilityDescriptor)
      → (found (pairing_step p d) ≡ true) ↔ ((found p ≡ true) ⊎ P d)) where
  pairing_from_sound :
      (p : Pairing) (ds : List (Option CapabilityDescriptor))
      → found (pairing_from p ds) ≡ true
      → (found p ≡ true) ⊎ ((d : Option CapabilityDescriptor) × In d ds × P d)
  unfolding pairing_from
  pairing_from_sound p [] h = inl h
  pairing_from_sound p (d ∷ ds) h = elim (pairing_from_sound (pairing_step p d) ds h) [
    | inl e ↦ elim ((step p d).0 e) [ inl f ↦ inl f | inr q ↦ inr (d, inl refl, q) ]
    | inr (x, m, q) ↦ inr (x, inr m, q)
  ]

  pairing_from_kept :
      (p : Pairing) (ds : List (Option CapabilityDescriptor))
      → found p ≡ true
      → found (pairing_from p ds) ≡ true
  unfolding pairing_from
  pairing_from_kept p [] h = h
  pairing_from_kept p (d ∷ ds) h = pairing_from_kept (pairing_step p d) ds ((step p d).1 (inl h))

  pairing_from_complete :
      (p : Pairing) (ds : List (Option CapabilityDescriptor)) (d : Option CapabilityDescriptor)
      → In d ds
      → P d
      → found (pairing_from p ds) ≡ true
  unfolding pairing_from
  pairing_from_complete p (c ∷ ds) d (inl e) q =
      pairing_from_kept (pairing_step p c) ds ((step p c).1 (inr (subst P e q)))
  pairing_from_complete p (c ∷ ds) d (inr m) q = pairing_from_complete (pairing_step p c) ds d m q
  pairing_from_complete p [] d m q = absurd m

check_pairing_iff :
    (o : Option CapabilityDescriptor) (b : Bool)
    → (check_pairing o b ≡ ok tt) ↔ (is_some o ≡ true → b ≡ true)
check_pairing_iff none b = (λ h e. cc, λ h. refl)
check_pairing_iff (some d) true = (λ h e. refl, λ h. refl)
check_pairing_iff (some d) false = (λ h e. cc, λ h. cc (h refl))

abbrev no_pairing : Pairing
no_pairing = record { network_auth = none; has_network_access = false }

-- The pairing check succeeds exactly on paired capabilities.
pub validate_network_auth_pairing_iff :
    (capabilities : List (Option CapabilityDescriptor))
    → (validate_network_auth_pairing capabilities ≡ ok tt) ↔ IsPaired capabilities
unfolding validate_network_auth_pairing
validate_network_auth_pairing_iff ds =
    let checked =
      check_pairing_iff (pairing_from no_pairing ds).network_auth
        (pairing_from no_pairing ds).has_network_access in
    (
      λ h d m uses.
          elim (pairing_from_sound step_access no_pairing ds
            (checked.0 h (pairing_from_complete step_network no_pairing ds d m uses))) [
              | inl e ↦ cc
              | inr found ↦ found
            ],
      λ h. checked.1 (λ e. elim (pairing_from_sound step_network no_pairing ds e) [
        | inl f ↦ cc
        | inr (d, m, uses) ↦
            let (x, n, access) = h d m uses in
            pairing_from_complete step_access no_pairing ds x n access
      ]),
    )
