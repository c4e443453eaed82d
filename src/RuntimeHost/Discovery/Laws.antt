-- ===== src/RuntimeHost/Discovery/Laws.antt =====
-- What the discovery finds.
use mathlib.Core.Option.{some-injective}
use bloem_plugin_sdk.Base.{
  String, true, false, Option, none, some, List, [], ◌∷◌, str_eq, is_some, ◌≡◌, ◌≢◌, refl, sym, ap,
  ◌∙◌, subst, ◌↔◌, inl, inr, In, eq_iff, Bool-cases, arith,
}
use bloem_plugin_sdk.Messages.{CapabilityDescriptor}
use bloem_plugin_sdk.RuntimeHost.Discovery.{
  InstalledPlugin, find_capability, capability, has_capability, keep_capable,
}

-- The plugin has a capability of this type, which is not empty.
abbrev pub Offers : String → Option InstalledPlugin → Type 0
Offers type none = ⊥
Offers type (some p) =
    (type ≢ "") × ((d : CapabilityDescriptor) × In (some d) p.capabilities × (d.type ≡ type))

find_capability_sound :
    (ds : List (Option CapabilityDescriptor)) (type : String)
    → is_some (find_capability ds type) ≡ true
    → (d : CapabilityDescriptor) × In (some d) ds × (d.type ≡ type)
unfolding find_capability
find_capability_sound [] type h = cc
find_capability_sound (none ∷ ds) type h = elim (Bool-cases (str_eq "" type)) [
  | inl e ↦ cc (rw e at h)
  | inr e ↦ let (d, m, t) = find_capability_sound ds type (rw e at h) in (d, inr m, t)
]
find_capability_sound (some d ∷ ds) type h = elim (Bool-cases (str_eq d.type type)) [
  | inl e ↦ (d, inl refl, (eq_iff d.type type).0 e)
  | inr e ↦ let (c, m, t) = find_capability_sound ds type (rw e at h) in (c, inr m, t)
]

find_capability_complete :
    (ds : List (Option CapabilityDescriptor)) (type : String) (d : CapabilityDescriptor)
    → type ≢ ""
    → In (some d) ds
    → d.type ≡ type
    → is_some (find_capability ds type) ≡ true
unfolding find_capability
find_capability_complete (none ∷ ds) type d nonempty (inr m) t =
    let e : str_eq "" type ≡ false = ground (arith, eq_iff "" type, nonempty) in
    rw e (find_capability_complete ds type d nonempty m t)
find_capability_complete (none ∷ ds) type d nonempty (inl m) t = cc m
find_capability_complete (some c ∷ ds) type d nonempty m t =
    elim (Bool-cases (str_eq c.type type)) [
      | inl e ↦ rw e refl
      | inr e ↦ elim m [
        | inl same ↦
            let u : c.type ≡ type =
              ap (λ (o : CapabilityDescriptor). o.type) (some-injective _ _ (sym same)) ∙ t in
            cc (e, (eq_iff c.type type).1 u)
        | inr n ↦ rw e (find_capability_complete ds type d nonempty n t)
      ]
    ]
find_capability_complete [] type d nonempty m t = absurd m

has_capability_iff :
    (p : Option InstalledPlugin) (type : String) → (has_capability p type ≡ true) ↔ Offers type p
unfolding has_capability capability
has_capability_iff none type = (λ h. cc, λ h. absurd h)
has_capability_iff (some p) type = elim (Bool-cases (str_eq type "")) [
  | inl e ↦ (λ h. cc (rw e at h), λ h. absurd (h.0 ((eq_iff type "").0 e)))
  | inr e ↦ (
    λ h. (λ z. cc (e, (eq_iff type "").1 z), find_capability_sound p.capabilities type (rw e at h)),
    λ h. let (d, m, t) = h.1 in rw e (find_capability_complete p.capabilities type d h.0 m t),
  )
]

-- The loop of ListInstalledPluginsByCapability keeps exactly the installed plugins that have a capability of the
-- type, and none for the empty type.
pub keep_capable_iff :
    (plugins : List (Option InstalledPlugin)) (type : String) (p : Option InstalledPlugin)
    → In p (keep_capable plugins type) ↔ (In p plugins × Offers type p)
unfolding keep_capable
keep_capable_iff [] type p = (λ h. absurd h, λ h. absurd h.0)
keep_capable_iff (q ∷ plugins) type p =
    let ih = keep_capable_iff plugins type p in
    let has = has_capability_iff q type in
    elim (Bool-cases (has_capability q type)) [
      | inl e ↦ rw e (
        λ h. elim h [
          | inl same ↦ (inl same, subst (Offers type) (sym same) (has.0 e))
          | inr m ↦ (inr (ih.0 m).0, (ih.0 m).1)
        ],
        λ h. elim h.0 [ inl same ↦ inl same | inr m ↦ inr (ih.1 (m, h.1)) ],
      )
      | inr e ↦ rw e (
        λ h. (inr (ih.0 h).0, (ih.0 h).1),
        λ h. elim h.0 [
          | inl same ↦ cc (e, has.1 (subst (Offers type) same h.1))
          | inr m ↦ ih.1 (m, h.1)
        ],
      )
    ]
