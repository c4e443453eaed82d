-- ===== src/Messages/AdminForm.antt =====
-- The config schemas of a manifest and their admin forms.
use bloem_plugin_sdk.Base.{ℕ, String, Bool, Option, List}
use bloem_plugin_sdk.Base.Int.{ℤ, pos}
use bloem_plugin_sdk.Values.{Value}

abbrev pub AdminFormControl : Type 0
AdminFormControl = ℤ

abbrev pub control_select : AdminFormControl
control_select = pos 6

abbrev pub control_multi_select : AdminFormControl
control_multi_select = pos 7

pub record AdminFormOption : Type 0 where
  pub value : String
  pub label : String
  pub description : String

pub record AdminFormCondition : Type 0 where
  pub field : String
  pub equals : List String

-- `min` and `max` are doubles, by their bit patterns.
pub record AdminFormValidation : Type 0 where
  pub has_min : Bool
  pub min : ℕ
  pub has_max : Bool
  pub max : ℕ
  pub pattern : String
  pub min_length : ℤ
  pub max_length : ℤ

pub record AdminFormField : Type 0 where
  pub key : String
  pub label : String
  pub description : String
  pub control : AdminFormControl
  pub placeholder : String
  pub required : Bool
  pub secret : Bool
  pub multiline : Bool
  pub default_value : Option Value
  pub options : List (Option AdminFormOption)
  pub rows : ℤ
  pub dynamic_options : Bool
  pub show_when : List (Option AdminFormCondition)
  pub validation : Option AdminFormValidation
  pub exclusive_group_field : String

pub record AdminFormSection : Type 0 where
  pub key : String
  pub title : String
  pub description : String
  pub collapsible : Bool
  pub collapsed_default : Bool
  pub field_keys : List String
  pub show_when : List (Option AdminFormCondition)

pub record AdminFormDescriptor : Type 0 where
  pub fields : List (Option AdminFormField)
  pub submit_label : String
  pub sections : List (Option AdminFormSection)

pub record ConfigSchema : Type 0 where
  pub key : String
  pub title : String
  pub description : String
  pub json_schema : String
  pub required : Bool
  pub admin_form : Option AdminFormDescriptor
