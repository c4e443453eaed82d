-- ===== src/Manifest/ConfigForm.antt =====
-- The config schemas and their admin forms: validateConfigSchema.
pub mod Fields
pub mod Laws
use bloem_plugin_sdk.Base.{
  ℕ, String, Bool, true, false, not, ◌&&◌, ◌||◌, Option, none, some, List, [], ◌∷◌, str_eq, Result,
  ok, err, ◌>>=◌, ◌>>◌, fail_if, for_each, wrap, contains, lookup, is_some, is_empty, if◌then◌else◌,
}
use bloem_plugin_sdk.Base.Int.{eqb_ℤ}
use bloem_plugin_sdk.Values.{Value, Any, bool, float64, text}
use bloem_plugin_sdk.Messages.AdminForm.{
  control_select, control_multi_select, AdminFormCondition, AdminFormField, AdminFormSection,
  AdminFormDescriptor, ConfigSchema,
}
use bloem_plugin_sdk.Manifest.Packages.{ParsedSchema, Packages}

-- The texts are the key of the field or section, then the name that is referred to.
pub data FormError : Type 0 where
  invalid_json_schema needs_object key_required : FormError
  duplicated undeclared needs_array needs_options : String → FormError
  default_not_bool default_not_numeric default_not_text : String → FormError
  show_when_field_required : String → FormError
  show_when_unknown group_unknown section_field_unknown : String → String → FormError

-- An error of the schema with this key.
pub data ConfigError : Type 0 where
  in_schema : String → FormError → ConfigError

abbrev pub needs_option_list : AdminFormField → Bool
needs_option_list f = not f.dynamic_options && is_empty f.options

unfoldable pub check_control : AdminFormField → String → Result FormError (Unit {0})
check_control f property =
    if eqb_ℤ f.control control_multi_select
    then (do
      fail_if (not (str_eq property "array")) (needs_array f.key)
      fail_if (needs_option_list f) (needs_options f.key))
    else if eqb_ℤ f.control control_select
    then fail_if (needs_option_list f) (needs_options f.key)
    else ok tt

abbrev pub is_bool : Any → Bool
is_bool (bool b) = true
is_bool _ = false

abbrev pub is_float64 : Any → Bool
is_float64 (float64 x) = true
is_float64 _ = false

abbrev pub is_text : Any → Bool
is_text (text s) = true
is_text _ = false

-- The type switch on a default value, by the type of its property.
unfoldable pub check_default_type : String → String → Any → Result FormError (Unit {0})
check_default_type key property value =
    if str_eq property "boolean"
    then fail_if (not (is_bool value)) (default_not_bool key)
    else if str_eq property "integer" || str_eq property "number"
    then fail_if (not (is_float64 value)) (default_not_numeric key)
    else if str_eq property "string"
    then fail_if (not (is_text value)) (default_not_text key)
    else ok tt

-- `hasReference`
unfoldable pub has_reference : List String → List (String × String) → String → Bool
has_reference seen properties key = contains seen key || is_some (lookup key properties)

abbrev pub condition_field : Option AdminFormCondition → String
condition_field none = ""
condition_field (some c) = c.field

unfoldable pub check_condition :
    List String
    → List (String × String)
    → String
    → Option AdminFormCondition
    → Result FormError (Unit {0})
unfolding has_reference
check_condition seen properties key c = do
  fail_if (str_eq (condition_field c) "") (show_when_field_required key)
  fail_if (not (has_reference seen properties (condition_field c)))
      (show_when_unknown key (condition_field c))

-- The second pass over the fields.
unfoldable pub check_references :
    List String → List (String × String) → Option AdminFormField → Result FormError (Unit {0})
unfolding check_condition
check_references seen properties none = ok tt
check_references seen properties (some f) = do
  for_each (check_condition seen properties f.key) f.show_when
  fail_if
      (not (str_eq f.exclusive_group_field "")
        && not (has_reference seen properties f.exclusive_group_field))
      (group_unknown f.key f.exclusive_group_field)

abbrev pub check_section_key : List String → String → String → Result FormError (Unit {0})
check_section_key seen section key =
    fail_if (not (contains seen key)) (section_field_unknown section key)

unfoldable pub check_section :
    List String → List (String × String) → Option AdminFormSection → Result FormError (Unit {0})
unfolding check_condition
check_section seen properties none = ok tt
check_section seen properties (some s) = do
  for_each (check_section_key seen s.key) s.field_keys
  for_each (check_condition seen properties s.key) s.show_when

module _ (pkg : Packages) where
  abbrev pub check_default : String → String → Option Value → Result FormError (Unit {0})
  check_default key property none = ok tt
  check_default key property (some v) = check_default_type key property (pkg.as_interface v)

  abbrev pub check_property : AdminFormField → Option String → Result FormError (Unit {0})
  check_property f none = err (undeclared f.key)
  check_property f (some property) = do
    check_control f property
    check_default f.key property f.default_value

  -- The first pass over the fields, which returns the set of their keys.
  unfoldable pub check_fields :
      List (String × String)
      → List String
      → List (Option AdminFormField)
      → Result FormError (List String)
  unfolding check_control check_default_type
  check_fields properties seen [] = ok seen
  check_fields properties seen (none ∷ fields) = check_fields properties seen fields
  check_fields properties seen (some f ∷ fields) = do
    fail_if (str_eq f.key "") key_required
    fail_if (contains seen f.key) (duplicated f.key)
    check_property f (lookup f.key properties)
    check_fields properties (f.key ∷ seen) fields

  unfoldable pub check_form : AdminFormDescriptor → ParsedSchema → Result FormError (Unit {0})
  unfolding check_fields check_references check_section
  check_form form parsed = do
    fail_if (not (str_eq parsed.type "object")) needs_object
    seen ← check_fields parsed.properties [] form.fields
    for_each (check_references seen parsed.properties) form.fields
    for_each (check_section seen parsed.properties) form.sections

  abbrev pub check_parsed : AdminFormDescriptor → Option ParsedSchema → Result FormError (Unit {0})
  check_parsed form none = err invalid_json_schema
  check_parsed form (some parsed) = check_form form parsed

  abbrev pub check_schema :
      ConfigSchema → Option AdminFormDescriptor → Result ConfigError (Unit {0})
  check_schema s none = ok tt
  check_schema s (some form) =
      wrap (in_schema s.key) (check_parsed form (pkg.parse_schema s.json_schema))

  -- `validateConfigSchema`
  unfoldable pub validate_config_schema : Option ConfigSchema → Result ConfigError (Unit {0})
  unfolding check_form
  validate_config_schema none = ok tt
  validate_config_schema (some s) = check_schema s s.admin_form
