-- ===== src/Values.antt =====
-- Dynamic values: `structpb.Value` as the protobuf messages hold it, and Go's `any` as the decoders
-- produce it. A double is kept as its 64-bit pattern, since the SDK computes with none.
use bloem_plugin_sdk.Base.{ℕ, String, Bool, List, [], ◌∷◌, map, ◌≡◌, refl, ap}

mutual
  -- `unset` is a nil pointer or a value whose kind is not set.
  pub data Value : Type 0 where
    unset null_value : Value
    number_value : ℕ → Value
    string_value : String → Value
    bool_value : Bool → Value
    struct_value : ValueFields → Value
    list_value : Values → Value

  pub data Values : Type 0 where
    nil : Values
    cons : Value → Values → Values

  pub data ValueFields : Type 0 where
    end : ValueFields
    field : String → Value → ValueFields → ValueFields

mutual
  pub data Any : Type 0 where
    nil : Any
    bool : Bool → Any
    float64 : ℕ → Any
    text : String → Any
    texts : List String → Any
    slice : Anys → Any
    maps : Maps → Any
    object : Entries → Any

  -- `[]any`
  pub data Anys : Type 0 where
    no_items : Anys
    item : Any → Anys → Anys

  -- `[]map[string]any`
  pub data Maps : Type 0 where
    no_maps : Maps
    map_item : Entries → Maps → Maps

  -- `map[string]any`
  pub data Entries : Type 0 where
    no_entries : Entries
    entry : String → Any → Entries → Entries

abbrev pub entries : Entries → List (String × Any)
entries Entries.no_entries = []
entries (Entries.entry k v m) = (k, v) ∷ entries m

abbrev pub items : Anys → List Any
items Anys.no_items = []
items (Anys.item v m) = v ∷ items m

-- The same the other way round: a Go map, a `[]any` and a `[]map[string]any` from their lists.
abbrev pub object_of : List (String × Any) → Entries
object_of [] = Entries.no_entries
object_of ((k, v) ∷ m) = Entries.entry k v (object_of m)

abbrev pub slice_of : List Any → Anys
slice_of [] = Anys.no_items
slice_of (v ∷ vs) = Anys.item v (slice_of vs)

abbrev pub maps_of : List (List (String × Any)) → Maps
maps_of [] = Maps.no_maps
maps_of (m ∷ ms) = Maps.map_item (object_of m) (maps_of ms)

-- Each map of a `[]map[string]any` as a value of its own.
abbrev pub map_items : Maps → List Any
map_items Maps.no_maps = []
map_items (Maps.map_item m ms) = object m ∷ map_items ms

pub entries-object_of : (m : List (String × Any)) → entries (object_of m) ≡ m
entries-object_of [] = refl
entries-object_of ((k, v) ∷ m) = ap (◌∷◌ (k, v)) (entries-object_of m)

pub items-slice_of : (vs : List Any) → items (slice_of vs) ≡ vs
items-slice_of [] = refl
items-slice_of (v ∷ vs) = ap (◌∷◌ v) (items-slice_of vs)

pub map_items-maps_of :
    (ms : List (List (String × Any))) → map_items (maps_of ms) ≡ map (λ m. object (object_of m)) ms
map_items-maps_of [] = refl
map_items-maps_of (m ∷ ms) = ap (◌∷◌ (object (object_of m))) (map_items-maps_of ms)
