-- ===== src/Convert/Sample.antt =====
-- A small protojson for the tests: it encodes the routers without wording, by a byte for each flag,
-- and one config schema, required or not, by three bytes; no other message.
mod Structs
use bloem_plugin_sdk.Base.{
  ℕ, zero, suc, String, arith, eq_iff, str_eq, Bool, true, false, not, ◌&&◌, Option, none, some, [],
  ◌∷◌, In, inl, inr, insert, lookup, lookup-insert, is_some, eq-none_of_is_some, Result, ok, err,
  ◌≡◌, refl, sym, ap, ◌∙◌, subst,
}
use bloem_plugin_sdk.Base.Decimal.{Bytes}
use bloem_plugin_sdk.Values.{Any, text, object, bool, entries, object_of, entries-object_of}
use bloem_plugin_sdk.Messages.{RequestRouterDescriptor, RequestRouterWording}
use bloem_plugin_sdk.Messages.AdminForm.{ConfigSchema}
use bloem_plugin_sdk.Convert.{Metadata, Codec, Codecs}
use bloem_plugin_sdk.Convert.Whole.{IsWholeSchema}
use bloem_plugin_sdk.Convert.Coding.{IsCodec, AreCodecs, fields_of}
use bloem_plugin_sdk.Convert.Sample.Structs.{as_map, new_struct, new_struct-as_map}

-- A message that is never encoded.
abbrev no_codec : {M : Type 0} → Codec ℕ M
no_codec = record { marshal = λ m. err 1; unmarshal = λ json. err 1 }

abbrev flag : Bool → ℕ
flag true = 1
flag false = 0

abbrev router_json : Option RequestRouterWording → Bool → Bool → Result ℕ Bytes
router_json none seasons progress = ok (flag seasons ∷ flag progress ∷ [])
router_json (some w) seasons progress = err 2

abbrev is_set : ℕ → Bool
is_set zero = false
is_set (suc n) = true

is_set-flag : (b : Bool) → is_set (flag b) ≡ b
is_set-flag true = refl
is_set-flag false = refl

abbrev pub router_of : Bool → Bool → RequestRouterDescriptor
router_of seasons progress = record {
  supports_seasons = seasons;
  reports_download_progress = progress;
  wording = none;
}

abbrev pub router_map : Bool → Bool → Metadata
router_map seasons progress =
    ("supports_seasons", bool seasons) ∷ ("reports_download_progress", bool progress) ∷ []

-- The schema that is encoded here, whose texts all differ.
abbrev pub limits_schema : Bool → ConfigSchema
limits_schema required = record {
  key = "limits";
  title = "Limits";
  description = "";
  json_schema = "{}";
  required = required;
  admin_form = none;
}

-- Its JSON, which leaves out what has its default.
abbrev pub limits_map : Bool → Metadata
limits_map true =
    ("key", text "limits")
    ∷ ("title", text "Limits")
    ∷ ("json_schema", text "{}")
    ∷ ("required", bool true)
    ∷ []
limits_map false =
    ("key", text "limits") ∷ ("title", text "Limits") ∷ ("json_schema", text "{}") ∷ []

abbrev are_limits : String → String → String → String → Bool
are_limits key title description json_schema =
    str_eq key "limits"
    && (str_eq title "Limits" && (str_eq description "" && str_eq json_schema "{}"))

abbrev schema_json : Bool → Bool → Result ℕ Bytes
schema_json true required = ok (7 ∷ flag required ∷ 7 ∷ [])
schema_json false required = err 6

abbrev marshal_schema : ConfigSchema → Result ℕ Bytes
marshal_schema s =
    schema_json (are_limits s.key s.title s.description s.json_schema && not (is_some s.admin_form))
      s.required

abbrev unmarshal_schema : Bytes → Result ℕ ConfigSchema
unmarshal_schema (a ∷ b ∷ c ∷ []) = ok (limits_schema (is_set b))
unmarshal_schema _ = err 3

abbrev text_of : Option Any → String
text_of (some (text s)) = s
text_of _ = ""

abbrev flag_of : Option Any → Bool
flag_of (some (bool b)) = b
flag_of _ = false

abbrev text_at : String → Metadata → String
text_at key v = text_of (lookup key v)

abbrev flag_at : String → Metadata → Bool
flag_at key v = flag_of (lookup key v)

abbrev read_router : Bytes → Result ℕ RequestRouterDescriptor
read_router (a ∷ b ∷ []) = ok (router_of (is_set a) (is_set b))
read_router _ = err 3

abbrev read_map : Bytes → Result ℕ Metadata
read_map (a ∷ b ∷ []) = ok (router_map (is_set a) (is_set b))
read_map (a ∷ b ∷ c ∷ []) = ok (limits_map (is_set b))
read_map _ = err 4

-- The JSON of a map: of a router, if it has that member, and otherwise of a schema.
abbrev write_members : Option Any → Option Any → Metadata → Result ℕ Bytes
write_members (some (bool a)) (some (bool b)) v = ok (flag a ∷ flag b ∷ [])
write_members (some seasons) progress v = err 5
write_members none progress v =
    schema_json
      (are_limits (text_at "key" v) (text_at "title" v) (text_at "description" v)
        (text_at "json_schema" v))
      (flag_at "required" v)

abbrev write_map : Any → Result ℕ Bytes
write_map (object m) =
    write_members (lookup "supports_seasons" (entries m))
      (lookup "reports_download_progress" (entries m)) (entries m)
write_map _ = err 5

abbrev pub codecs : Codecs ℕ
codecs = record {
  watch_sync = no_codec;
  router = record {
    marshal = λ m. router_json m.wording m.supports_seasons m.reports_download_progress;
    unmarshal = read_router;
  };
  schema = record { marshal = marshal_schema; unmarshal = unmarshal_schema };
  marshal_json = write_map;
  unmarshal_map = read_map;
  as_map = as_map;
  new_struct = new_struct;
}

no_codec-IsCodec : {M : Type 0} (Whole : M → Type 0) → IsCodec codecs no_codec Whole
no_codec-IsCodec Whole = record {
  Presents = λ v m. ⊥;
  shows = λ m json v whole e. absurd (cc e);
  reads = λ m v h. absurd h;
}

-- A router without wording, and the map of its two flags.
data Presents : Metadata → RequestRouterDescriptor → Type 0 where
  presents : (a b : Bool) → Presents (router_map a b) (router_of a b)

router_shows :
    (w : Option RequestRouterWording) (a b : Bool) (json : Bytes) (v : Metadata)
    → router_json w a b ≡ ok json
    → codecs.unmarshal_map json ≡ ok v
    → Presents v (record { supports_seasons = a; reports_download_progress = b; wording = w })
router_shows (some w) a b json v e h = absurd (cc e)
router_shows none a b json v e h =
    let e' : flag a ∷ flag b ∷ [] ≡ json = cc e in
    let h' = ap codecs.unmarshal_map e' ∙ h in
    let k : router_map a b ≡ v = cc (is_set-flag a, is_set-flag b) in rw (← k) (presents a b)

router_reads :
    (m : RequestRouterDescriptor) (v : Metadata)
    → Presents v m
    → (json : Bytes) × (codecs.marshal_json (object (object_of v)) ≡ ok json)
      × (codecs.router.unmarshal json ≡ ok m)
unfolding lookup
router_reads m v (presents a b) =
    (flag a ∷ flag b ∷ [], refl, rw (is_set-flag a, is_set-flag b) refl)

-- A map with the members of the schema, of which one that has its default may be missing.
record PresentsLimits (v : Metadata) (s : ConfigSchema) : Type 0 where
  pub required : Bool
  pub same : s ≡ limits_schema required
  pub no_router : lookup "supports_seasons" v ≡ none
  pub key : text_at "key" v ≡ "limits"
  pub title : text_at "title" v ≡ "Limits"
  pub description : text_at "description" v ≡ ""
  pub json_schema : text_at "json_schema" v ≡ "{}"
  pub flagged : flag_at "required" v ≡ required

are_limits_iff :
    (key title description json_schema : String)
    → are_limits key title description json_schema ≡ true
    → (key ≡ "limits") × (title ≡ "Limits") × (description ≡ "") × (json_schema ≡ "{}")
are_limits_iff key title description json_schema h = ground (
  arith,
  eq_iff key "limits",
  eq_iff title "Limits",
  eq_iff description "",
  eq_iff json_schema "{}",
)

limits_map-PresentsLimits : (b : Bool) → PresentsLimits (limits_map b) (limits_schema b)
unfolding lookup
limits_map-PresentsLimits true = record {
  required = true;
  same = refl;
  no_router = refl;
  key = refl;
  title = refl;
  description = refl;
  json_schema = refl;
  flagged = refl;
}
limits_map-PresentsLimits false = record {
  required = false;
  same = refl;
  no_router = refl;
  key = refl;
  title = refl;
  description = refl;
  json_schema = refl;
  flagged = refl;
}

schema_encoded :
    (limits : Bool) (required : Bool) (json : Bytes) (v : Metadata)
    → schema_json limits required ≡ ok json
    → codecs.unmarshal_map json ≡ ok v
    → (limits ≡ true) × (limits_map required ≡ v)
schema_encoded false required json v e h = absurd (cc e)
schema_encoded true required json v e h =
    let e' : 7 ∷ flag required ∷ 7 ∷ [] ≡ json = cc e in
    let h' = ap codecs.unmarshal_map e' ∙ h in (refl, cc (is_set-flag required))

whole_limits :
    (s : ConfigSchema)
    → (are_limits s.key s.title s.description s.json_schema && not (is_some s.admin_form)) ≡ true
    → s ≡ limits_schema s.required
whole_limits s h =
    let texts : are_limits s.key s.title s.description s.json_schema ≡ true = ground (arith, h) in
    let bare : is_some s.admin_form ≡ false = ground (arith, h) in
    let (key, title, description, json_schema) =
      are_limits_iff s.key s.title s.description s.json_schema texts in
    let form = eq-none_of_is_some s.admin_form bare in
    λ i. record {
      key = key i;
      title = title i;
      description = description i;
      json_schema = json_schema i;
      required = s.required;
      admin_form = form i;
    }

schema_shows :
    (s : ConfigSchema) (json : Bytes) (v : Metadata)
    → IsWholeSchema s
    → codecs.schema.marshal s ≡ ok json
    → codecs.unmarshal_map json ≡ ok v
    → PresentsLimits v s
schema_shows s json v whole e h =
    let (limits, mapped) = schema_encoded _ s.required json v e h in
    subst (λ w. PresentsLimits w s) mapped
      (subst (PresentsLimits (limits_map s.required)) (sym (whole_limits s limits))
        (limits_map-PresentsLimits s.required))

schema_reads :
    (s : ConfigSchema) (v : Metadata)
    → PresentsLimits v s
    → (json : Bytes) × (codecs.marshal_json (object (object_of v)) ≡ ok json)
      × (codecs.schema.unmarshal json ≡ ok s)
schema_reads s v h = (
  7 ∷ flag h.required ∷ 7 ∷ [],
  rw (entries-object_of v, h.no_router, h.key, h.title, h.description, h.json_schema, h.flagged)
      refl,
  rw (is_set-flag h.required) (ap ok (sym h.same)),
)

limits_field :
    (s : ConfigSchema) (v : Metadata) (field : String × Any)
    → In field (fields_of s)
    → PresentsLimits v s
    → PresentsLimits (insert field.0 field.1 v) s
limits_field s v field (inl e) h = rw e (record {
  required = h.required;
  same = h.same;
  no_router = lookup-insert "key" "supports_seasons" (text s.key) v ∙ h.no_router;
  key =
      ap text_of (lookup-insert "key" "key" (text s.key) v)
      ∙ ap (λ (t : ConfigSchema). t.key) h.same;
  title = ap text_of (lookup-insert "key" "title" (text s.key) v) ∙ h.title;
  description = ap text_of (lookup-insert "key" "description" (text s.key) v) ∙ h.description;
  json_schema = ap text_of (lookup-insert "key" "json_schema" (text s.key) v) ∙ h.json_schema;
  flagged = ap flag_of (lookup-insert "key" "required" (text s.key) v) ∙ h.flagged;
})
limits_field s v field (inr (inl e)) h = rw e (record {
  required = h.required;
  same = h.same;
  no_router = lookup-insert "title" "supports_seasons" (text s.title) v ∙ h.no_router;
  key = ap text_of (lookup-insert "title" "key" (text s.title) v) ∙ h.key;
  title =
      ap text_of (lookup-insert "title" "title" (text s.title) v)
      ∙ ap (λ (t : ConfigSchema). t.title) h.same;
  description = ap text_of (lookup-insert "title" "description" (text s.title) v) ∙ h.description;
  json_schema = ap text_of (lookup-insert "title" "json_schema" (text s.title) v) ∙ h.json_schema;
  flagged = ap flag_of (lookup-insert "title" "required" (text s.title) v) ∙ h.flagged;
})
limits_field s v field (inr (inr (inl e))) h = rw e (record {
  required = h.required;
  same = h.same;
  no_router = lookup-insert "description" "supports_seasons" (text s.description) v ∙ h.no_router;
  key = ap text_of (lookup-insert "description" "key" (text s.description) v) ∙ h.key;
  title = ap text_of (lookup-insert "description" "title" (text s.description) v) ∙ h.title;
  description =
      ap text_of (lookup-insert "description" "description" (text s.description) v)
      ∙ ap (λ (t : ConfigSchema). t.description) h.same;
  json_schema =
      ap text_of (lookup-insert "description" "json_schema" (text s.description) v) ∙ h.json_schema;
  flagged = ap flag_of (lookup-insert "description" "required" (text s.description) v) ∙ h.flagged;
})
limits_field s v field (inr (inr (inr (inl e)))) h = rw e (record {
  required = h.required;
  same = h.same;
  no_router = lookup-insert "json_schema" "supports_seasons" (text s.json_schema) v ∙ h.no_router;
  key = ap text_of (lookup-insert "json_schema" "key" (text s.json_schema) v) ∙ h.key;
  title = ap text_of (lookup-insert "json_schema" "title" (text s.json_schema) v) ∙ h.title;
  description =
      ap text_of (lookup-insert "json_schema" "description" (text s.json_schema) v) ∙ h.description;
  json_schema =
      ap text_of (lookup-insert "json_schema" "json_schema" (text s.json_schema) v)
      ∙ ap (λ (t : ConfigSchema). t.json_schema) h.same;
  flagged = ap flag_of (lookup-insert "json_schema" "required" (text s.json_schema) v) ∙ h.flagged;
})
limits_field s v field (inr (inr (inr (inr (inl e))))) h = rw e (record {
  required = h.required;
  same = h.same;
  no_router = lookup-insert "required" "supports_seasons" (bool s.required) v ∙ h.no_router;
  key = ap text_of (lookup-insert "required" "key" (bool s.required) v) ∙ h.key;
  title = ap text_of (lookup-insert "required" "title" (bool s.required) v) ∙ h.title;
  description =
      ap text_of (lookup-insert "required" "description" (bool s.required) v) ∙ h.description;
  json_schema =
      ap text_of (lookup-insert "required" "json_schema" (bool s.required) v) ∙ h.json_schema;
  flagged =
      ap flag_of (lookup-insert "required" "required" (bool s.required) v)
      ∙ ap (λ (t : ConfigSchema). t.required) h.same;
})
limits_field s v field (inr (inr (inr (inr (inr m))))) h = absurd m

pub codecs-AreCodecs : AreCodecs codecs
unfolding no_codec-IsCodec
codecs-AreCodecs = record {
  watch_sync = no_codec-IsCodec _;
  router = record {
    Presents = Presents;
    shows = λ m json v whole e h.
        router_shows m.wording m.supports_seasons m.reports_download_progress json v e h;
    reads = router_reads;
  };
  schema = record { Presents = PresentsLimits; shows = schema_shows; reads = schema_reads };
  fields = limits_field;
  structs = new_struct-as_map;
}
