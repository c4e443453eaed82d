-- ===== src/Convert/Tests.antt =====
-- The round trip at a concrete capability, with a router and a config schema.
use bloem_plugin_sdk.Base.{All, arith, true, false, some, [], ◌∷◌, map, insert, ok, ◌≡◌, refl}
use bloem_plugin_sdk.Values.{Value, Any, text, texts, object, maps, maps_of, bool, object_of}
use bloem_plugin_sdk.Messages.{CapabilityDescriptor, empty_descriptor}
use bloem_plugin_sdk.Convert.{
  Metadata, CapabilityRecord, capability_records, decode_capability, metadata_of, to_map,
  schema_maps, with_scalars,
}
use bloem_plugin_sdk.Convert.Whole.{IsWhole}
use bloem_plugin_sdk.Convert.Sample.{router_of, router_map, limits_schema, codecs, codecs-AreCodecs}
use bloem_plugin_sdk.Convert.Laws.{capability_records-decode}
use bloem_plugin_sdk.Convert.Stored.{stored_record, capability_records-decode_stored}

abbrev router_descriptor : CapabilityDescriptor
router_descriptor = record empty_descriptor {
  type = "request_router.v1";
  id = "router";
  display_name = "Router";
  subscriptions = "requests" ∷ [];
  metadata = some (("limit", Value.number_value 0) ∷ []);
  config_schema = some (limits_schema true) ∷ [];
  request_router = some (router_of true false);
}

-- The schema's map with all of its texts and its flag set.
abbrev stored_limits : Metadata
stored_limits =
    ("key", text "limits")
    ∷ ("title", text "Limits")
    ∷ ("json_schema", text "{}")
    ∷ ("required", bool true)
    ∷ ("description", text "")
    ∷ []

abbrev router_metadata : Metadata
router_metadata =
    ("display_name", text "Router")
    ∷ ("description", text "")
    ∷ ("subscriptions", texts ("requests" ∷ []))
    ∷ ("request_router", object (object_of (router_map true false)))
    ∷ ("config_schema", maps (maps_of (stored_limits ∷ [])))
    ∷ ("metadata", object (object_of (("limit", Any.float64 0) ∷ [])))
    ∷ []

abbrev router_record : CapabilityRecord
router_record = record {
  type = "request_router.v1";
  id = "router";
  metadata = some router_metadata;
}

router_recorded : capability_records codecs (some router_descriptor ∷ []) ≡ ok (router_record ∷ [])
unfolding capability_records metadata_of to_map schema_maps with_scalars insert
router_recorded = refl

router_descriptor-IsWhole : All IsWhole (some router_descriptor ∷ [])
router_descriptor-IsWhole =
    (record { watch_sync = tt; schemas = (tt, tt); metadata = (omega arith, tt) }, tt)

capability_records-decode_example :
    map (decode_capability codecs) (router_record ∷ []) ≡ ok router_descriptor ∷ []
capability_records-decode_example =
    capability_records-decode codecs (some router_descriptor ∷ []) (router_record ∷ [])
      codecs-AreCodecs router_descriptor-IsWhole router_recorded

capability_records-decode_stored_example :
    map (λ r. decode_capability codecs (stored_record r)) (router_record ∷ [])
    ≡ ok router_descriptor ∷ []
capability_records-decode_stored_example =
    capability_records-decode_stored codecs (some router_descriptor ∷ []) (router_record ∷ [])
      codecs-AreCodecs router_descriptor-IsWhole router_recorded
