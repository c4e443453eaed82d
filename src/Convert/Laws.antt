-- ===== src/Convert/Laws.antt =====
-- A descriptor is read back from its record.
use bloem_plugin_sdk.Base.{
  if_same, String, Option, none, some, List, [], ◌∷◌, map, str_eq, lookup, lookup-insert, ok,
  >>=-eq-ok, All, if◌then◌else◌, ◌≡◌, refl, ap, ◌∙◌,
}
use bloem_plugin_sdk.Values.{Any, text}
use bloem_plugin_sdk.Messages.{CapabilityDescriptor, deref}
use bloem_plugin_sdk.Convert.Whole.{IfThere, IsWholeStruct, IsWholeDescriptor, IsWhole}
use bloem_plugin_sdk.Convert.{
  Metadata, CapabilityRecord, Codecs, put, list_value, text_value, to_map_value, from_value,
  schemas_value, struct_value, capability_records, capability_metadata, watch_sync_descriptor,
  router_descriptor, metadata_of, record_of, decode_config_schemas, decode_metadata,
  decode_capability,
}
use bloem_plugin_sdk.Convert.Coding.{
  AreCodecs, whole_router, from_value-to_map_value, decode_config_schemas-schemas_value,
  decode_struct-struct_value, decode_list-list_value, text_or_empty-text_value,
}

-- Several values put into a map, the first one first.
abbrev pub puts : List (String × Option Any) → Metadata → Metadata
puts [] m = m
puts ((k, o) ∷ fs) m = puts fs (put k o m)

abbrev pub pick : Option Any → Option Any → Option Any
pick none base = base
pick (some v) base = some v

abbrev pub last_put : String → List (String × Option Any) → Option Any → Option Any
last_put key [] base = base
last_put key ((k, o) ∷ fs) base = last_put key fs (if str_eq k key then pick o base else base)

lookup-put :
    (key k : String) (o : Option Any) (m : Metadata)
    → lookup key (put k o m) ≡ (if str_eq k key then pick o (lookup key m) else lookup key m)
lookup-put key k none m = if_same (str_eq k key) (lookup key m)
lookup-put key k (some v) m = lookup-insert k key v m

lookup-puts :
    (key : String) (fs : List (String × Option Any)) (m : Metadata)
    → lookup key (puts fs m) ≡ last_put key fs (lookup key m)
lookup-puts key [] m = refl
lookup-puts key ((k, o) ∷ fs) m =
    lookup-puts key fs (put k o m) ∙ ap (last_put key fs) (lookup-put key k o m)

pub pick-none : (o : Option Any) → pick o none ≡ o
pick-none none = refl
pick-none (some v) = refl

module _ {J : Type 0} (c : Codecs J) where
  abbrev pub fields :
      CapabilityDescriptor → Option Any → Option Any → Option Any → List (String × Option Any)
  fields d watch_sync router schemas =
      ("subscriptions", list_value d.subscriptions)
      ∷ ("auth_modes", list_value d.auth_modes)
      ∷ ("icon_url", text_value d.icon_url)
      ∷ ("watch_sync_provider", watch_sync)
      ∷ ("request_router", router)
      ∷ ("config_schema", schemas)
      ∷ ("metadata", struct_value c d.metadata)
      ∷ []

  abbrev pub names : CapabilityDescriptor → Metadata
  names d = ("display_name", text d.display_name) ∷ ("description", text d.description) ∷ []

  -- What is found in the map of a descriptor under a key.
  pub lookup-fields :
      (d : CapabilityDescriptor) (watch_sync router schemas : Option Any) (key : String)
      → let m = puts (fields d watch_sync router schemas) (names d) in
        lookup key m ≡ last_put key (fields d watch_sync router schemas) (lookup key (names d))
  lookup-fields d watch_sync router schemas key =
      lookup-puts key (fields d watch_sync router schemas) (names d)

  decode-fields :
      (d : CapabilityDescriptor) (watch_sync router schemas : Option Any)
      → AreCodecs c
      → from_value c watch_sync_descriptor c.watch_sync watch_sync ≡ ok d.watch_sync_provider
      → from_value c router_descriptor c.router router ≡ ok d.request_router
      → decode_config_schemas c schemas ≡ ok d.config_schema
      → IfThere IsWholeStruct d.metadata
      → let m = puts (fields d watch_sync router schemas) (names d) in
        decode_metadata c (record_of (some d) m) m
        ≡ ok (record d { network_access_provider = none })
  unfolding decode_metadata lookup
  decode-fields d watch_sync router schemas laws w r s whole =
      let at = lookup-fields d watch_sync router schemas in
      rw
        (
          at "subscriptions",
          at "auth_modes",
          at "icon_url",
          at "watch_sync_provider",
          at "request_router",
          at "config_schema",
          at "metadata",
          at "display_name",
          at "description",
        )
        (rw
          (
            pick-none (list_value d.subscriptions),
            pick-none (list_value d.auth_modes),
            pick-none watch_sync,
            pick-none router,
            pick-none schemas,
            pick-none (text_value d.icon_url),
            pick-none (struct_value c d.metadata),
          )
          (rw
            (
              decode_list-list_value c d.subscriptions,
              decode_list-list_value c d.auth_modes,
              w,
              r,
              s,
              decode_struct-struct_value c laws d.metadata whole,
              text_or_empty-text_value d.icon_url,
            )
            refl))

  -- The map of a descriptor is made of the values of its fields.
  pub capability_metadata-fields :
      (d : CapabilityDescriptor) (m : Metadata)
      → capability_metadata c (some d) ≡ ok m
      → (watch_sync router schemas : Option Any) × (to_map_value c watch_sync_descriptor
            c.watch_sync d.watch_sync_provider
          ≡ ok watch_sync)
        × (to_map_value c router_descriptor c.router d.request_router ≡ ok router)
        × (schemas_value c d.config_schema ≡ ok schemas)
        × (puts (fields d watch_sync router schemas) (names d) ≡ m)
  unfolding capability_metadata metadata_of
  capability_metadata-fields d m h =
      let (watch_sync, mapped_watch, rest) =
        >>=-eq-ok (to_map_value c watch_sync_descriptor c.watch_sync d.watch_sync_provider) _ m h in
      let (router, mapped_router, rest') =
        >>=-eq-ok (to_map_value c router_descriptor c.router d.request_router) _ m rest in
      let (schemas, mapped_schemas, whole) =
        >>=-eq-ok (schemas_value c d.config_schema) _ m rest' in
      (watch_sync, router, schemas, mapped_watch, mapped_router, mapped_schemas, cc whole)

  -- A whole descriptor is read back from its record as it was, but for its network access
  -- descriptor, which the record does not hold.
  pub decode_capability-capability_metadata :
      (d : CapabilityDescriptor) (m : Metadata)
      → AreCodecs c
      → IsWholeDescriptor d
      → capability_metadata c (some d) ≡ ok m
      → decode_capability c (record_of (some d) m)
        ≡ ok (record d { network_access_provider = none })
  unfolding decode_capability
  decode_capability-capability_metadata d m laws there h =
      let (watch_sync, router, schemas, mapped_watch, mapped_router, mapped_schemas, e) =
        capability_metadata-fields d m h in
      rw (← e) (
        decode-fields d watch_sync router schemas laws
          (from_value-to_map_value c watch_sync_descriptor c.watch_sync laws.watch_sync
            d.watch_sync_provider watch_sync there.watch_sync mapped_watch)
          (from_value-to_map_value c router_descriptor c.router laws.router d.request_router router
            (whole_router d.request_router) mapped_router)
          (decode_config_schemas-schemas_value c laws d.config_schema schemas there.schemas
            mapped_schemas)
          there.metadata)

-- What is read back from the record of a capability: all but its network access descriptor.
abbrev pub kept : Option CapabilityDescriptor → CapabilityDescriptor
kept d = record (deref d) { network_access_provider = none }

module _ {J : Type 0} (c : Codecs J) where
  -- The records of a manifest's capabilities, read back one by one, are the capabilities as they were,
  -- but for their network access descriptors, which the records do not hold. The codecs are as
  -- documented, and every capability is whole.
  pub capability_records-decode :
      (ds : List (Option CapabilityDescriptor)) (rs : List CapabilityRecord)
      → AreCodecs c
      → All IsWhole ds
      → capability_records c ds ≡ ok rs
      → map (decode_capability c) rs ≡ map (λ d. ok (kept d)) ds
  unfolding capability_records capability_metadata
  capability_records-decode [] rs laws there h = let e : [] ≡ rs = cc h in rw (← e) refl
  capability_records-decode (none ∷ ds) rs laws there h = absurd (cc h)
  capability_records-decode (some d ∷ ds) rs laws there h =
      let (m, first, rest) = >>=-eq-ok (capability_metadata c (some d)) _ rs h in
      let (us, others, joined) = >>=-eq-ok (capability_records c ds) _ rs rest in
      let e : record_of (some d) m ∷ us ≡ rs = cc joined in
      rw (← e) (
        rw
          (
            decode_capability-capability_metadata c d m laws there.0 first,
            capability_records-decode ds us laws there.1 others,
          )
          refl)
