-- ===== src/Config/Tests.antt =====
-- A value of a declared key, by a compiler whose schemas allow every value.
use bloem_plugin_sdk.Base.{
  String, Option, none, some, List, [], ◌∷◌, ok, err, ◌≡◌, ◌↔◌, false, refl,
}
use bloem_plugin_sdk.Messages.AdminForm.{ConfigSchema}
use bloem_plugin_sdk.Messages.{PluginManifest}
use bloem_plugin_sdk.Manifest.Tests.{manifest}
use bloem_plugin_sdk.Config.{
  SchemaCompiler, find_schema, not_declared, validate_manifest_global_value,
  validate_manifest_user_value,
}
use bloem_plugin_sdk.Config.Laws.{
  IsFirst, IsDeclared, find_schema_iff, validate_manifest_values_iff,
}

abbrev compiler : SchemaCompiler String String String
compiler = record {
  parse = λ text. ok text;
  add = λ name document. ok tt;
  compile = λ name document. ok document;
  validate = λ compiled value. ok tt;
}

abbrev limits : ConfigSchema
limits = record {
  key = "limits";
  title = "Limits";
  description = "";
  json_schema = " ";
  required = false;
  admin_form = none;
}

abbrev schemas : List (Option ConfigSchema)
schemas =
    none
    ∷ some (record limits { key = "other" })
    ∷ some limits
    ∷ some (record limits { title = "Again" })
    ∷ []

abbrev configured : PluginManifest
configured = record manifest { global_config_schema = schemas; user_config_schema = [] }

find_schema_iff_example : IsFirst "limits" schemas limits
unfolding find_schema
find_schema_iff_example = (find_schema_iff "limits" schemas limits).0 refl

validate_manifest_values_iff_example :
    ((validate_manifest_global_value compiler (some configured) "limits" none ≡ ok tt) ↔ (
      (m : PluginManifest) × (some configured ≡ some m)
      × IsDeclared compiler m.global_config_schema "limits" none))
    × ((validate_manifest_user_value compiler (some configured) "limits" none ≡ ok tt) ↔ (
        (m : PluginManifest) × (some configured ≡ some m)
        × IsDeclared compiler m.user_config_schema "limits" none))
validate_manifest_values_iff_example =
    validate_manifest_values_iff compiler (some configured) "limits" none

accepts_limits : validate_manifest_global_value compiler (some configured) "limits" none ≡ ok tt
unfolding validate_manifest_global_value
accepts_limits = refl

refuses_user :
    validate_manifest_user_value compiler (some configured) "limits" none
    ≡ err (not_declared "plugin user config" "limits")
unfolding validate_manifest_user_value
refuses_user = refl
