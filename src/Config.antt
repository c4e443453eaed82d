-- ===== src/Config.antt =====
-- pkg/pluginsdk/config/config.go: a configuration value against the schema that the manifest declares
-- for its key. encoding/json and the JSON Schema compiler are parameters.
pub mod Laws
mod Tests
use Prim.Native.String.{◌++◌ as append}
use bloem_plugin_sdk.Base.{
  String, Bool, Option, none, some, List, [], ◌∷◌, str_eq, Result, ok, err, ◌>>=◌, ◌>>◌, wrap,
  if◌then◌else◌,
}
use bloem_plugin_sdk.Text.{trim_space}
use bloem_plugin_sdk.Convert.{Metadata}
use bloem_plugin_sdk.Messages.{PluginManifest}
use bloem_plugin_sdk.Messages.AdminForm.{ConfigSchema}

-- `D` stands for a decoded schema document, and `C` for a compiled schema. `add` is `AddResource` of
-- a new compiler, and `compile` its `Compile` once the document has been added under the name.
pub record SchemaCompiler (D C J : Type 0) : Type 0 where
  pub parse : String → Result J D
  pub add : String → D → Result J (Unit {0})
  pub compile : String → D → Result J C
  pub validate : C → Metadata → Result J (Unit {0})

-- The errors name the kind of the entry and its key.
pub data ConfigError (J : Type 0) : Type 0 where
  manifest_required : ConfigError J
  not_declared : String → String → ConfigError J
  schema_not_parsed schema_not_loaded schema_not_compiled invalid_value :
      String → String → J → ConfigError J

-- `FindSchema`
unfoldable pub find_schema : List (Option ConfigSchema) → String → Option ConfigSchema
find_schema [] key = none
find_schema (none ∷ schemas) key = find_schema schemas key
find_schema (some schema ∷ schemas) key =
    if str_eq schema.key key then some schema else find_schema schemas key

-- A schema's document, by its text; a blank one allows everything.
abbrev pub schema_text : ConfigSchema → String
schema_text schema =
    let text = trim_space schema.json_schema in if str_eq text "" then "{}" else text

-- a nil map is an empty one
abbrev pub or_empty_map : Option Metadata → Metadata
or_empty_map none = []
or_empty_map (some value) = value

abbrev pub resource_name : String → String
resource_name key = append "memory://config/" (append key ".schema.json")

module _ {D C J : Type 0} (c : SchemaCompiler D C J) where
  -- `ValidateValue`
  unfoldable pub validate_value :
      Option ConfigSchema → String → String → Option Metadata → Result (ConfigError J) (Unit {0})
  unfolding trim_space
  validate_value none kind key value = err (not_declared kind key)
  validate_value (some schema) kind key value = do
    document ← wrap (schema_not_parsed kind key) (c.parse (schema_text schema))
    wrap (schema_not_loaded kind key) (c.add (resource_name key) document)
    compiled ← wrap (schema_not_compiled kind key) (c.compile (resource_name key) document)
    wrap (invalid_value kind key) (c.validate compiled (or_empty_map value))

  -- `ValidateManifestGlobalValue` and `ValidateManifestUserValue`
  unfoldable pub validate_manifest_global_value :
      Option PluginManifest → String → Option Metadata → Result (ConfigError J) (Unit {0})
  unfolding validate_value find_schema
  validate_manifest_global_value none key value = err manifest_required
  validate_manifest_global_value (some m) key value =
      validate_value (find_schema m.global_config_schema key) "plugin global config" key value

  unfoldable pub validate_manifest_user_value :
      Option PluginManifest → String → Option Metadata → Result (ConfigError J) (Unit {0})
  unfolding validate_value find_schema
  validate_manifest_user_value none key value = err manifest_required
  validate_manifest_user_value (some m) key value =
      validate_value (find_schema m.user_config_schema key) "plugin user config" key value
