-- ===== src/Convert.antt =====
-- pkg/pluginsdk/convert/convert.go: capability descriptors as the records that a host stores, and
-- back. protojson, encoding/json and structpb are parameters. A Go map is the list of its entries.
pub mod Coding
pub mod Laws
pub mod Stored
mod Sample
mod Tests
pub mod Whole
use bloem_plugin_sdk.Base.{
  String, Bool, true, false, Option, none, some, List, [], ◌∷◌, map, is_empty, str_eq, lookup,
  insert, Result, ok, err, ◌>>=◌, wrap, if◌then◌else◌,
}
use bloem_plugin_sdk.Base.Decimal.{Bytes}
use bloem_plugin_sdk.Values.{
  Any, text, texts, slice, maps, object, bool, entries, items, object_of, maps_of, map_items,
}
use bloem_plugin_sdk.Messages.{
  Struct, CapabilityDescriptor, RequestRouterDescriptor, PluginManifest, empty_descriptor,
}
use bloem_plugin_sdk.Messages.WatchSync.{WatchSyncProviderDescriptor}
use bloem_plugin_sdk.Messages.AdminForm.{ConfigSchema}

abbrev pub Metadata : Type 0
Metadata = List (String × Any)

-- nil metadata is `none`
pub record CapabilityRecord : Type 0 where
  pub type : String
  pub id : String
  pub metadata : Option Metadata

-- `protojson` for one kind of message
pub record Codec (J M : Type 0) : Type 0 where
  pub marshal : M → Result J Bytes
  pub unmarshal : Bytes → Result J M

pub record Codecs (J : Type 0) : Type 0 where
  pub watch_sync : Codec J WatchSyncProviderDescriptor
  pub router : Codec J RequestRouterDescriptor
  pub schema : Codec J ConfigSchema
  -- `json.Marshal`, and `json.Unmarshal` into a `map[string]any`
  pub marshal_json : Any → Result J Bytes
  pub unmarshal_map : Bytes → Result J Metadata
  -- `(*structpb.Struct).AsMap` and `structpb.NewStruct`
  pub as_map : Struct → Metadata
  pub new_struct : Metadata → Result J Struct

-- The message that an error names.
pub data MessageKind : Type 0 where
  watch_sync_descriptor router_descriptor schema_message : MessageKind

pub data ConvertError (J : Type 0) : Type 0 where
  descriptor_required not_a_list not_a_schema_list not_a_string : ConvertError J
  encode_failed decode_failed decode_json_failed : MessageKind → J → ConvertError J
  decode_struct_failed : J → ConvertError J

-- `metadata[key] = value`, for a value that is there
abbrev pub put : String → Option Any → Metadata → Metadata
put key none m = m
put key (some value) m = insert key value m

abbrev pub list_value : List String → Option Any
list_value [] = none
list_value (s ∷ ss) = some (texts (s ∷ ss))

abbrev pub text_value : String → Option Any
text_value s = if str_eq s "" then none else some (text s)

-- `toStringAnyMap`
abbrev pub to_string_any_map : Any → Metadata
to_string_any_map (object m) = entries m
to_string_any_map _ = []

-- The keys that a stored schema always has.
unfoldable pub with_scalars : ConfigSchema → Metadata → Metadata
unfolding insert
with_scalars s m = insert "required" (bool s.required) (
    insert "json_schema" (text s.json_schema) (
      insert "description" (text s.description)
        (insert "title" (text s.title) (insert "key" (text s.key) m))))

module _ {J : Type 0} where
  -- the loop of `toStringSlice`
  unfoldable pub to_texts : List Any → Result (ConvertError J) (List String)
  to_texts [] = ok []
  to_texts (text s ∷ vs) = to_texts vs >>= λ ss. ok (s ∷ ss)
  to_texts (_ ∷ vs) = err not_a_string

  -- `toStringSlice`
  unfoldable pub to_string_slice : Any → Result (ConvertError J) (List String)
  unfolding to_texts
  to_string_slice (texts ss) = ok ss
  to_string_slice (slice vs) = to_texts (items vs)
  to_string_slice _ = err not_a_list

  -- a list that may be missing
  abbrev pub decode_list : Option Any → Result (ConvertError J) (List String)
  decode_list none = ok []
  decode_list (some value) = to_string_slice value

  abbrev pub schema_entries : Any → Result (ConvertError J) (List Any)
  schema_entries (slice vs) = ok (items vs)
  schema_entries (maps ms) = ok (map_items ms)
  schema_entries _ = err not_a_schema_list

abbrev pub record_of : Option CapabilityDescriptor → Metadata → CapabilityRecord
record_of none m = record { type = ""; id = ""; metadata = some m }
record_of (some d) m = record { type = d.type; id = d.id; metadata = some m }

abbrev pub text_or_empty : Option Any → String
text_or_empty (some (text s)) = s
text_or_empty _ = ""

module _ {J : Type 0} (c : Codecs J) where
  -- A message as a map, by way of its JSON.
  unfoldable pub to_map :
      {M : Type 0} → MessageKind → Codec J M → M → Result (ConvertError J) Metadata
  to_map kind codec m = do
    data_json ← wrap (encode_failed kind) (codec.marshal m)
    wrap (decode_json_failed kind) (c.unmarshal_map data_json)

  -- A message from a value, by way of its JSON.
  unfoldable pub from_any : {M : Type 0} → MessageKind → Codec J M → Any → Result (ConvertError J) M
  from_any kind codec value = do
    data_json ← wrap (encode_failed kind) (c.marshal_json value)
    wrap (decode_failed kind) (codec.unmarshal data_json)

  abbrev pub to_map_value :
      {M : Type 0} → MessageKind → Codec J M → Option M → Result (ConvertError J) (Option Any)
  to_map_value kind codec none = ok none
  to_map_value kind codec (some m) = to_map kind codec m >>= λ v. ok (some (object (object_of v)))

  abbrev pub from_value :
      {M : Type 0} → MessageKind → Codec J M → Option Any → Result (ConvertError J) (Option M)
  from_value kind codec none = ok none
  from_value kind codec (some value) = from_any kind codec value >>= λ m. ok (some m)

  abbrev pub schema_map : Option ConfigSchema → Result (ConvertError J) Metadata
  schema_map none = ok []
  schema_map (some s) = to_map schema_message c.schema s >>= λ v. ok (with_scalars s v)

  unfoldable pub schema_maps : List (Option ConfigSchema) → Result (ConvertError J) (List Metadata)
  unfolding to_map with_scalars
  schema_maps [] = ok []
  schema_maps (s ∷ ss) = do v ← schema_map s; vs ← schema_maps ss; ok (v ∷ vs)

  abbrev pub schemas_value : List (Option ConfigSchema) → Result (ConvertError J) (Option Any)
  schemas_value [] = ok none
  schemas_value (s ∷ ss) = schema_maps (s ∷ ss) >>= λ vs. ok (some (maps (maps_of vs)))

  abbrev pub struct_value : Option Struct → Option Any
  struct_value none = none
  struct_value (some s) = some (object (object_of (c.as_map s)))

  -- `capabilityMetadata` of a descriptor that is there
  unfoldable pub metadata_of : CapabilityDescriptor → Result (ConvertError J) Metadata
  unfolding to_map schema_maps insert
  metadata_of d = do
    watch_sync ← to_map_value watch_sync_descriptor c.watch_sync d.watch_sync_provider
    router ← to_map_value router_descriptor c.router d.request_router
    schemas ← schemas_value d.config_schema
    ok (
        put "metadata" (struct_value d.metadata) (
          put "config_schema" schemas (
            put "request_router" router (
              put "watch_sync_provider" watch_sync (
                put "icon_url" (text_value d.icon_url) (
                  put "auth_modes" (list_value d.auth_modes) (
                    put "subscriptions" (list_value d.subscriptions) (
                      ("display_name", text d.display_name)
                      ∷ ("description", text d.description)
                      ∷ []))))))))

  -- `capabilityMetadata`
  unfoldable pub capability_metadata :
      Option CapabilityDescriptor → Result (ConvertError J) Metadata
  unfolding metadata_of
  capability_metadata none = err descriptor_required
  capability_metadata (some d) = metadata_of d

  -- the loop of `CapabilityRecordsFromManifest`
  unfoldable pub capability_records :
      List (Option CapabilityDescriptor) → Result (ConvertError J) (List CapabilityRecord)
  unfolding capability_metadata
  capability_records [] = ok []
  capability_records (d ∷ ds) = do
    m ← capability_metadata d
    rs ← capability_records ds
    ok (record_of d m ∷ rs)

  -- `CapabilityRecordsFromManifest`, of a manifest that may be nil
  unfoldable pub capability_records_from_manifest :
      Option PluginManifest → Result (ConvertError J) (List CapabilityRecord)
  unfolding capability_records
  capability_records_from_manifest none = ok []
  capability_records_from_manifest (some m) = capability_records m.capabilities

  -- the loop of `decodeConfigSchemas`
  unfoldable pub decode_schemas : List Any → Result (ConvertError J) (List (Option ConfigSchema))
  unfolding from_any
  decode_schemas [] = ok []
  decode_schemas (v ∷ vs) = do
    s ← from_any schema_message c.schema (object (object_of (to_string_any_map v)))
    ss ← decode_schemas vs
    ok (some s ∷ ss)

  -- `decodeConfigSchemas`, of a value that may be missing
  abbrev pub decode_config_schemas :
      Option Any → Result (ConvertError J) (List (Option ConfigSchema))
  decode_config_schemas none = ok []
  decode_config_schemas (some value) = schema_entries value >>= λ vs. decode_schemas vs

  abbrev pub decode_struct : Option Any → Result (ConvertError J) (Option Struct)
  decode_struct none = ok none
  decode_struct (some value) =
      wrap decode_struct_failed (c.new_struct (to_string_any_map value)) >>= λ s. ok (some s)

  unfoldable pub decode_metadata :
      CapabilityRecord → Metadata → Result (ConvertError J) CapabilityDescriptor
  unfolding to_string_slice from_any decode_schemas lookup
  decode_metadata r m = do
    subscriptions ← decode_list (lookup "subscriptions" m)
    auth_modes ← decode_list (lookup "auth_modes" m)
    watch_sync ← from_value watch_sync_descriptor c.watch_sync (lookup "watch_sync_provider" m)
    router ← from_value router_descriptor c.router (lookup "request_router" m)
    schemas ← decode_config_schemas (lookup "config_schema" m)
    metadata ← decode_struct (lookup "metadata" m)
    ok (record empty_descriptor {
      type = r.type;
      id = r.id;
      display_name = text_or_empty (lookup "display_name" m);
      description = text_or_empty (lookup "description" m);
      subscriptions = subscriptions;
      config_schema = schemas;
      metadata = metadata;
      auth_modes = auth_modes;
      icon_url = text_or_empty (lookup "icon_url" m);
      watch_sync_provider = watch_sync;
      request_router = router;
    })

  abbrev pub decode_present :
      CapabilityRecord → Option Metadata → Result (ConvertError J) CapabilityDescriptor
  decode_present r none = ok (record empty_descriptor { type = r.type; id = r.id })
  decode_present r (some m) = decode_metadata r m

  -- `DecodeCapability`
  unfoldable pub decode_capability : CapabilityRecord → Result (ConvertError J) CapabilityDescriptor
  unfolding decode_metadata
  decode_capability r = decode_present r r.metadata
