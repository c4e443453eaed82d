-- ===== src/Convert/Coding.antt =====
-- What the codecs must satisfy, and how each value of a record's map is read back.
use bloem_plugin_sdk.Base.{
  String, Option, none, some, List, [], ◌∷◌, In, insert, map, str_eq, ok, >>=-eq-ok, wrap,
  wrap-eq-ok_iff, ◌≡◌, refl, sym, Bool-cases, inl, inr, eq_iff,
}
use bloem_plugin_sdk.Base.Decimal.{Bytes}
use bloem_plugin_sdk.Values.{
  Any, text, bool, maps, object, object_of, maps_of, entries-object_of, map_items-maps_of,
}
use bloem_plugin_sdk.Messages.{Struct, RequestRouterDescriptor}
use bloem_plugin_sdk.Convert.Whole.{
  AllThere, IfThere, IsWholeWatchSync, IsWholeSchema, IsWholeStruct,
}
use bloem_plugin_sdk.Messages.AdminForm.{ConfigSchema}
use bloem_plugin_sdk.Convert.{
  Metadata, Codec, Codecs, MessageKind, schema_message, list_value, text_value, with_scalars,
  to_string_slice, decode_list, to_map, from_any, to_map_value, from_value, schema_map, schema_maps,
  schemas_value, struct_value, decode_schemas, decode_config_schemas, decode_struct, text_or_empty,
}

-- What protojson and encoding/json document for one kind of message: the map that the JSON of a
-- whole message decodes to presents the message, and the JSON of a map that presents a message
-- decodes to it.
pub record IsCodec {J M : Type 0} (c : Codecs J) (codec : Codec J M) (Whole : M → Type 0)
    : Type 1 where
  pub Presents : Metadata → M → Type 0
  pub shows :
      (m : M) (json : Bytes) (v : Metadata)
      → Whole m
      → codec.marshal m ≡ ok json
      → c.unmarshal_map json ≡ ok v
      → Presents v m
  pub reads :
      (m : M) (v : Metadata)
      → Presents v m
      → (json : Bytes) × (c.marshal_json (object (object_of v)) ≡ ok json)
        × (codec.unmarshal json ≡ ok m)

-- the members of a config schema's JSON that hold a text or a flag, by their names in config.proto
abbrev pub fields_of : ConfigSchema → List (String × Any)
fields_of s =
    ("key", text s.key)
    ∷ ("title", text s.title)
    ∷ ("description", text s.description)
    ∷ ("json_schema", text s.json_schema)
    ∷ ("required", bool s.required)
    ∷ []

pub record AreCodecs {J : Type 0} (c : Codecs J) : Type 1 where
  pub watch_sync : IsCodec c c.watch_sync IsWholeWatchSync
  pub router : IsCodec c c.router (λ m. Unit {0})
  pub schema : IsCodec c c.schema IsWholeSchema
  -- A map presents the same message when one of its members is set to the value that the message
  -- has in that field, which protojson leaves out at its default.
  pub fields :
      (s : ConfigSchema) (v : Metadata) (field : String × Any)
      → In field (fields_of s)
      → schema.Presents v s
      → schema.Presents (insert field.0 field.1 v) s
  pub structs : (s : Struct) → IsWholeStruct s → c.new_struct (c.as_map s) ≡ ok s

pub whole_router : (o : Option RequestRouterDescriptor) → IfThere (λ m. Unit {0}) o
whole_router none = tt
whole_router (some m) = tt

module _ {J : Type 0} (c : Codecs J) where
  from_any-to_map :
      {M : Type 0} {Whole : M → Type 0} (kind : MessageKind) (codec : Codec J M)
      (law : IsCodec c codec Whole) (m : M) (v : Metadata)
      → Whole m
      → to_map c kind codec m ≡ ok v
      → law.Presents v m
  unfolding to_map
  from_any-to_map kind codec law m v whole h =
      let (json, encoded, decoded) = >>=-eq-ok (wrap _ (codec.marshal m)) _ v h in
      law.shows m json v whole ((wrap-eq-ok_iff _ (codec.marshal m) json).0 encoded)
        ((wrap-eq-ok_iff _ (c.unmarshal_map json) v).0 decoded)

  from_any-of_Presents :
      {M : Type 0} {Whole : M → Type 0} (kind : MessageKind) (codec : Codec J M)
      (law : IsCodec c codec Whole) (m : M) (v : Metadata)
      → law.Presents v m
      → from_any c kind codec (object (object_of v)) ≡ ok m
  unfolding from_any
  from_any-of_Presents kind codec law m v h =
      let (json, encoded, decoded) = law.reads m v h in rw (encoded, decoded) refl

  pub from_value-to_map_value :
      {M : Type 0} {Whole : M → Type 0} (kind : MessageKind) (codec : Codec J M)
      (law : IsCodec c codec Whole) (o : Option M) (value : Option Any)
      → IfThere Whole o
      → to_map_value c kind codec o ≡ ok value
      → from_value c kind codec value ≡ ok o
  from_value-to_map_value kind codec law none value whole h =
      let e : none ≡ value = cc h in rw (← e) refl
  from_value-to_map_value kind codec law (some m) value whole h =
      let (v, mapped, e) = >>=-eq-ok (to_map c kind codec m) _ value h in
      let e' : some (object (object_of v)) ≡ value = cc e in
      rw (← e') (
        rw
          (from_any-of_Presents kind codec law m v
            (from_any-to_map kind codec law m v whole mapped))
          refl)

  with_scalars-Presents :
      (laws : AreCodecs c) (s : ConfigSchema) (v : Metadata)
      → laws.schema.Presents v s
      → laws.schema.Presents (with_scalars s v) s
  unfolding with_scalars insert
  with_scalars-Presents laws s v h0 =
      let v1 = insert "key" (text s.key) v in
      let h1 = laws.fields s v ("key", text s.key) (inl refl) h0 in
      let v2 = insert "title" (text s.title) v1 in
      let h2 = laws.fields s v1 ("title", text s.title) (inr (inl refl)) h1 in
      let v3 = insert "description" (text s.description) v2 in
      let h3 = laws.fields s v2 ("description", text s.description) (inr (inr (inl refl))) h2 in
      let v4 = insert "json_schema" (text s.json_schema) v3 in
      let h4 =
        laws.fields s v3 ("json_schema", text s.json_schema) (inr (inr (inr (inl refl)))) h3 in
      laws.fields s v4 ("required", bool s.required) (inr (inr (inr (inr (inl refl))))) h4

  decode_schemas-schema_maps :
      (laws : AreCodecs c) (ss : List (Option ConfigSchema)) (vs : List Metadata)
      → AllThere IsWholeSchema ss
      → schema_maps c ss ≡ ok vs
      → decode_schemas c (map (λ m. object (object_of m)) vs) ≡ ok ss
  unfolding schema_maps decode_schemas
  decode_schemas-schema_maps laws [] vs there h = let e : [] ≡ vs = cc h in rw (← e) refl
  decode_schemas-schema_maps laws (none ∷ ss) vs there h = absurd there
  decode_schemas-schema_maps laws (some s ∷ ss) vs there h =
      let (v, first, rest) = >>=-eq-ok (schema_map c (some s)) _ vs h in
      let (w, mapped, scalars) = >>=-eq-ok (to_map c schema_message c.schema s) _ v first in
      let (us, others, joined) = >>=-eq-ok (schema_maps c ss) _ vs rest in
      let e : with_scalars s w ≡ v = cc scalars in
      let e' : v ∷ us ≡ vs = cc joined in
      let shown =
        with_scalars-Presents laws s w
          (from_any-to_map schema_message c.schema laws.schema s w there.0 mapped) in
      let read =
        from_any-of_Presents schema_message c.schema laws.schema s (with_scalars s w) shown in
      rw (← e') (
        rw (← e) (
          rw
            (
              entries-object_of (with_scalars s w),
              read,
              decode_schemas-schema_maps laws ss us there.1 others,
            )
            refl))

  pub decode_config_schemas-schemas_value :
      (laws : AreCodecs c) (ss : List (Option ConfigSchema)) (value : Option Any)
      → AllThere IsWholeSchema ss
      → schemas_value c ss ≡ ok value
      → decode_config_schemas c value ≡ ok ss
  decode_config_schemas-schemas_value laws [] value there h =
      let e : none ≡ value = cc h in rw (← e) refl
  decode_config_schemas-schemas_value laws (s ∷ ss) value there h =
      let (vs, mapped, e) = >>=-eq-ok (schema_maps c (s ∷ ss)) _ value h in
      let e' : some (maps (maps_of vs)) ≡ value = cc e in
      rw (← e')
        (rw (map_items-maps_of vs) (decode_schemas-schema_maps laws (s ∷ ss) vs there mapped))

  pub decode_struct-struct_value :
      (laws : AreCodecs c) (o : Option Struct)
      → IfThere IsWholeStruct o
      → decode_struct c (struct_value c o) ≡ ok o
  decode_struct-struct_value laws none whole = refl
  decode_struct-struct_value laws (some s) whole =
      rw (entries-object_of (c.as_map s), laws.structs s whole) refl

  pub decode_list-list_value : (ss : List String) → decode_list {J = J} (list_value ss) ≡ ok ss
  unfolding to_string_slice
  decode_list-list_value [] = refl
  decode_list-list_value (s ∷ ss) = refl

pub text_or_empty-text_value : (s : String) → text_or_empty (text_value s) ≡ s
text_or_empty-text_value s = elim (Bool-cases (str_eq s "")) [
  | inl e ↦ rw e (sym ((eq_iff s "").0 e))
  | inr e ↦ rw e refl
]
