-- ===== src/Convert/Stored.antt =====
-- Records that a host has stored as JSON.
use bloem_plugin_sdk.Base.{
  String, Bool, Option, none, some, List, [], ◌∷◌, map, str_eq, lookup, ok, >>=-eq-ok, All,
  if◌then◌else◌, ◌≡◌, refl, sym, ap, ◌∙◌, true, false, Bool-cases, inl, inr, eq_iff,
}
use bloem_plugin_sdk.Values.{
  Any, text, texts, slice, maps, object, slice_of, maps_of, object_of, map_items, items-slice_of,
}
use bloem_plugin_sdk.Messages.{Struct, CapabilityDescriptor}
use bloem_plugin_sdk.Messages.AdminForm.{ConfigSchema}
use bloem_plugin_sdk.Convert.{
  Metadata, CapabilityRecord, Codec, Codecs, MessageKind, to_texts, to_string_slice, decode_list,
  from_value, decode_config_schemas, to_map, to_map_value, schema_maps, schemas_value, struct_value,
  list_value, text_value, record_of, capability_records, capability_metadata, decode_metadata,
  decode_capability, text_or_empty, watch_sync_descriptor, router_descriptor,
}
use bloem_plugin_sdk.Convert.Whole.{IfThere, IsWholeStruct, IsWhole}
use bloem_plugin_sdk.Convert.Coding.{
  AreCodecs, whole_router, from_value-to_map_value, decode_config_schemas-schemas_value,
  decode_struct-struct_value,
}
use bloem_plugin_sdk.Convert.Laws.{
  kept, puts, fields, names, lookup-fields, pick-none, capability_metadata-fields,
}

-- A value after `json.Marshal` and `json.Unmarshal`: typed lists have become `[]any`. The records hold
-- such lists at the top only.
abbrev pub stored_value : Any → Any
stored_value (texts ss) = slice (slice_of (map text ss))
stored_value (maps ms) = slice (slice_of (map_items ms))
stored_value v = v

abbrev pub stored : Metadata → Metadata
stored [] = []
stored ((k, v) ∷ m) = (k, stored_value v) ∷ stored m

abbrev stored_option : Option Any → Option Any
stored_option none = none
stored_option (some v) = some (stored_value v)

abbrev stored_metadata : Option Metadata → Option Metadata
stored_metadata none = none
stored_metadata (some m) = some (stored m)

abbrev pub stored_record : CapabilityRecord → CapabilityRecord
stored_record r = record r { metadata = stored_metadata r.metadata }

if_stored :
    (v : Any) {o : Option Any} (o' : Option Any) (b : Bool)
    → o ≡ stored_option o'
    → (if b then some (stored_value v) else o) ≡ stored_option (if b then some v else o')
if_stored v o' true e = refl
if_stored v o' false e = e

lookup-stored : (key : String) (m : Metadata) → lookup key (stored m) ≡ stored_option (lookup key m)
unfolding lookup
lookup-stored key [] = refl
lookup-stored key ((k, v) ∷ m) = if_stored v (lookup key m) (str_eq k key) (lookup-stored key m)

text_or_empty-stored : (s : String) → text_or_empty (stored_option (text_value s)) ≡ s
text_or_empty-stored s = elim (Bool-cases (str_eq s "")) [
  | inl e ↦ rw e (sym ((eq_iff s "").0 e))
  | inr e ↦ rw e refl
]

module _ {J : Type 0} where
  to_texts-map : (ss : List String) → to_texts {J = J} (map text ss) ≡ ok ss
  unfolding to_texts
  to_texts-map [] = refl
  to_texts-map (s ∷ ss) = rw (to_texts-map ss) refl

module _ {J : Type 0} (c : Codecs J) where
  decode_list-stored :
      (ss : List String) → decode_list {J = J} (stored_option (list_value ss)) ≡ ok ss
  unfolding to_string_slice
  decode_list-stored [] = refl
  decode_list-stored (s ∷ ss) =
      ap to_texts (items-slice_of (map text (s ∷ ss))) ∙ to_texts-map (s ∷ ss)

  stored-to_map_value :
      {M : Type 0} (kind : MessageKind) (codec : Codec J M) (o : Option M) (value : Option Any)
      → to_map_value c kind codec o ≡ ok value
      → stored_option value ≡ value
  stored-to_map_value kind codec none value h = let e : none ≡ value = cc h in rw (← e) refl
  stored-to_map_value kind codec (some m) value h =
      let (v, mapped, e) = >>=-eq-ok (to_map c kind codec m) _ value h in
      let e' : some (object (object_of v)) ≡ value = cc e in rw (← e') refl

  stored-struct_value : (o : Option Struct) → stored_option (struct_value c o) ≡ struct_value c o
  stored-struct_value none = refl
  stored-struct_value (some s) = refl

  decode_config_schemas-stored :
      (ss : List (Option ConfigSchema)) (value : Option Any)
      → schemas_value c ss ≡ ok value
      → decode_config_schemas c (stored_option value) ≡ decode_config_schemas c value
  decode_config_schemas-stored [] value h = let e : none ≡ value = cc h in rw (← e) refl
  decode_config_schemas-stored (s ∷ ss) value h =
      let (vs, mapped, e) = >>=-eq-ok (schema_maps c (s ∷ ss)) _ value h in
      let e' : some (maps (maps_of vs)) ≡ value = cc e in
      rw (← e') (rw (items-slice_of (map_items (maps_of vs))) refl)

  decode-stored_fields :
      (d : CapabilityDescriptor) (watch_sync router schemas : Option Any)
      → AreCodecs c
      → stored_option watch_sync ≡ watch_sync
      → stored_option router ≡ router
      → from_value c watch_sync_descriptor c.watch_sync watch_sync ≡ ok d.watch_sync_provider
      → from_value c router_descriptor c.router router ≡ ok d.request_router
      → decode_config_schemas c (stored_option schemas) ≡ ok d.config_schema
      → IfThere IsWholeStruct d.metadata
      → let m = puts (fields c d watch_sync router schemas) (names c d) in
        decode_metadata c (stored_record (record_of (some d) m)) (stored m) ≡ ok (kept (some d))
  unfolding decode_metadata
  decode-stored_fields d watch_sync router schemas laws sw sr w r s whole =
      let m = puts (fields c d watch_sync router schemas) (names c d) in
      let at = λ (key : String).
        lookup-stored key m ∙ ap stored_option (lookup-fields c d watch_sync router schemas key) in
      rw
        (
          at "subscriptions",
          at "auth_modes",
          at "icon_url",
          at "watch_sync_provider",
          at "request_router",
          at "config_schema",
          at "metadata",
          at "display_name",
          at "description",
        )
        (rw
          (
            pick-none (list_value d.subscriptions),
            pick-none (list_value d.auth_modes),
            pick-none watch_sync,
            pick-none router,
            pick-none schemas,
            pick-none (text_value d.icon_url),
            pick-none (struct_value c d.metadata),
          )
          (rw
            (
              decode_list-stored d.subscriptions,
              decode_list-stored d.auth_modes,
              sw,
              sr,
              w,
              r,
              s,
              stored-struct_value d.metadata,
              decode_struct-struct_value c laws d.metadata whole,
              text_or_empty-stored d.icon_url,
            )
            refl))

  decode_capability-stored_record :
      (d : CapabilityDescriptor) (m : Metadata)
      → AreCodecs c
      → IsWhole (some d)
      → capability_metadata c (some d) ≡ ok m
      → decode_capability c (stored_record (record_of (some d) m)) ≡ ok (kept (some d))
  unfolding decode_capability
  decode_capability-stored_record d m laws there h =
      let (watch_sync, router, schemas, mapped_watch, mapped_router, mapped_schemas, e) =
        capability_metadata-fields c d m h in
      rw (← e) (
        decode-stored_fields d watch_sync router schemas laws
          (stored-to_map_value watch_sync_descriptor c.watch_sync d.watch_sync_provider watch_sync
            mapped_watch)
          (stored-to_map_value router_descriptor c.router d.request_router router mapped_router)
          (from_value-to_map_value c watch_sync_descriptor c.watch_sync laws.watch_sync
            d.watch_sync_provider watch_sync there.watch_sync mapped_watch)
          (from_value-to_map_value c router_descriptor c.router laws.router d.request_router router
            (whole_router d.request_router) mapped_router)
          (decode_config_schemas-stored d.config_schema schemas mapped_schemas
            ∙ decode_config_schemas-schemas_value c laws d.config_schema schemas there.schemas
                mapped_schemas)
          there.metadata)

  -- The records of a manifest's capabilities are read back one by one as the capabilities were, but
  -- for their network access descriptors, also after the host has stored the records as JSON, which
  -- turns their typed lists into lists of values. The codecs are as documented, and every
  -- capability is whole.
  pub capability_records-decode_stored :
      (ds : List (Option CapabilityDescriptor)) (rs : List CapabilityRecord)
      → AreCodecs c
      → All IsWhole ds
      → capability_records c ds ≡ ok rs
      → map (λ r. decode_capability c (stored_record r)) rs ≡ map (λ d. ok (kept d)) ds
  unfolding capability_records capability_metadata
  capability_records-decode_stored [] rs laws there h = let e : [] ≡ rs = cc h in rw (← e) refl
  capability_records-decode_stored (none ∷ ds) rs laws there h = absurd (cc h)
  capability_records-decode_stored (some d ∷ ds) rs laws there h =
      let (m, first, rest) = >>=-eq-ok (capability_metadata c (some d)) _ rs h in
      let (us, others, joined) = >>=-eq-ok (capability_records c ds) _ rs rest in
      let e : record_of (some d) m ∷ us ≡ rs = cc joined in
      rw (← e) (
        rw
          (
            decode_capability-stored_record d m laws there.0 first,
            capability_records-decode_stored ds us laws there.1 others,
          )
          refl)
