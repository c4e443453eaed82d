-- ===== src/RuntimeHost/Discovery.antt =====
-- discovery.go: which of the installed plugins have a capability, and its metadata. The answer of the
-- ListInstalledPlugins call, and the map that structpb makes of a struct, are parameters.
pub mod Laws
use bloem_plugin_sdk.Base.{
  String, Bool, not, ◌||◌, Option, none, some, List, [], ◌∷◌, str_eq, Result, ok, err, ◌>>=◌,
  is_some, lookup, if◌then◌else◌,
}
use bloem_plugin_sdk.Base.Int.{ℤ}
use bloem_plugin_sdk.Values.{Any, text, slice, items}
use bloem_plugin_sdk.Messages.{Struct, CapabilityDescriptor, deref}

pub record InstalledPlugin : Type 0 where
  pub installation_id : ℤ
  pub plugin_id : String
  pub version : String
  pub enabled : Bool
  pub capabilities : List (Option CapabilityDescriptor)

-- The loop of `Capability`; a nil capability has the empty type.
unfoldable pub find_capability :
    List (Option CapabilityDescriptor) → String → Option CapabilityDescriptor
find_capability [] type = none
find_capability (d ∷ ds) type = if str_eq (deref d).type type then d else find_capability ds type

-- `Capability`
unfoldable pub capability : Option InstalledPlugin → String → Option CapabilityDescriptor
unfolding find_capability
capability none type = none
capability (some p) type = if str_eq type "" then none else find_capability p.capabilities type

-- `HasCapability`
unfoldable pub has_capability : Option InstalledPlugin → String → Bool
unfolding capability
has_capability p type = is_some (capability p type)

unfoldable pub keep_capable : List (Option InstalledPlugin) → String → List (Option InstalledPlugin)
unfolding has_capability
keep_capable [] type = []
keep_capable (p ∷ ps) type =
    let rest = keep_capable ps type in if has_capability p type then p ∷ rest else rest

-- `ListInstalledPluginsByCapability`, from the answer of ListInstalledPlugins
unfoldable pub list_installed_plugins_by_capability :
    {E : Type 0}
    → Result E (List (Option InstalledPlugin))
    → String
    → Result E (List (Option InstalledPlugin))
unfolding keep_capable
list_installed_plugins_by_capability answer type = do
  plugins ← answer
  ok (keep_capable plugins type)

module _ (as_map : Struct → List (String × Any)) where
  -- `CapabilityMetadata`
  unfoldable pub capability_metadata : Option CapabilityDescriptor → List (String × Any)
  capability_metadata none = []
  capability_metadata (some d) = elim d.metadata [ none ↦ [] | some fields ↦ as_map fields ]

  abbrev pub string_of : Option Any → String
  string_of (some (text t)) = t
  string_of _ = ""

  -- `CapabilityMetadataString`
  unfoldable pub capability_metadata_string : Option CapabilityDescriptor → String → String
  unfolding capability_metadata lookup
  capability_metadata_string d key = string_of (lookup key (capability_metadata d))

  abbrev pub texts_of : List Any → List String
  texts_of [] = []
  texts_of (text t ∷ rest) = t ∷ texts_of rest
  texts_of (_ ∷ rest) = texts_of rest

  abbrev pub strings_of : Option Any → List String
  strings_of (some (slice values)) = texts_of (items values)
  strings_of _ = []

  -- `CapabilityMetadataStrings`
  unfoldable pub capability_metadata_strings : Option CapabilityDescriptor → String → List String
  unfolding capability_metadata lookup
  capability_metadata_strings d key = strings_of (lookup key (capability_metadata d))
