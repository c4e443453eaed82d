-- ===== src/Convert/Whole.antt =====
-- The messages that the JSON of protojson and the maps of structpb hold in full: a list of messages
-- has no nil element, a value of a struct is set, and its numbers and the limits of a
-- field are finite.
use bloem_plugin_sdk.Base.{
  ℕ, ◌/◌, ◌%◌, ◌^◌, ◌<◌, Option, none, some, List, [], ◌∷◌, All, ◌≡◌, Bool, true, false, is_some,
}
use bloem_plugin_sdk.Values.{Value, Values, ValueFields}
use bloem_plugin_sdk.Messages.{Struct, CapabilityDescriptor, deref}
use bloem_plugin_sdk.Messages.WatchSync.{WatchSyncProviderDescriptor}
use bloem_plugin_sdk.Messages.AdminForm.{
  AdminFormValidation, AdminFormField, AdminFormSection, AdminFormDescriptor, ConfigSchema,
}

abbrev pub AreThere : {A : Type 0} → List (Option A) → Type 0
AreThere os = All (λ o. is_some o ≡ true) os

-- Every element is there and satisfies the predicate.
abbrev pub AllThere : {A : Type 0} → (A → Type 0) → List (Option A) → Type 0
AllThere P [] = Unit {0}
AllThere P (none ∷ os) = ⊥
AllThere P (some a ∷ os) = P a × AllThere P os

abbrev pub IfThere : {A : Type 0} → (A → Type 0) → Option A → Type 0
IfThere P none = Unit {0}
IfThere P (some a) = P a

abbrev pub IsWholeWatchSync : WatchSyncProviderDescriptor → Type 0
IsWholeWatchSync w = AreThere w.connection_settings

-- Of a double, by its bits: the exponent is not all ones.
abbrev pub IsFinite : ℕ → Type 0
IsFinite n = n / 2 ^ 52 % 2 ^ 11 < 2047

-- an optional double: finite if it is set, and 0 if it is not
abbrev pub IsWholeNumber : Bool → ℕ → Type 0
IsWholeNumber true n = IsFinite n
IsWholeNumber false n = n ≡ 0

abbrev pub IsWholeValidation : AdminFormValidation → Type 0
IsWholeValidation v = IsWholeNumber v.has_min v.min × IsWholeNumber v.has_max v.max

abbrev pub IsWholeField : AdminFormField → Type 0
IsWholeField f = AreThere f.options × AreThere f.show_when × IfThere IsWholeValidation f.validation

abbrev pub IsWholeSection : AdminFormSection → Type 0
IsWholeSection s = AreThere s.show_when

abbrev pub IsWholeForm : AdminFormDescriptor → Type 0
IsWholeForm form = AllThere IsWholeField form.fields × AllThere IsWholeSection form.sections

abbrev pub IsWholeSchema : ConfigSchema → Type 0
IsWholeSchema s = IfThere IsWholeForm s.admin_form

abbrev mutual
  pub IsWholeValue : Value → Type 0
  IsWholeValue Value.unset = ⊥
  IsWholeValue Value.null_value = Unit {0}
  IsWholeValue (Value.number_value n) = IsFinite n
  IsWholeValue (Value.string_value s) = Unit {0}
  IsWholeValue (Value.bool_value b) = Unit {0}
  IsWholeValue (Value.struct_value m) = AreWholeFields m
  IsWholeValue (Value.list_value vs) = AreWholeValues vs

  pub AreWholeValues : Values → Type 0
  AreWholeValues Values.nil = Unit {0}
  AreWholeValues (Values.cons v vs) = IsWholeValue v × AreWholeValues vs

  pub AreWholeFields : ValueFields → Type 0
  AreWholeFields ValueFields.end = Unit {0}
  AreWholeFields (ValueFields.field k v m) = IsWholeValue v × AreWholeFields m

abbrev pub IsWholeStruct : Struct → Type 0
IsWholeStruct [] = Unit {0}
IsWholeStruct ((k, v) ∷ m) = IsWholeValue v × IsWholeStruct m

pub record IsWholeDescriptor (d : CapabilityDescriptor) : Type 0 where
  pub watch_sync : IfThere IsWholeWatchSync d.watch_sync_provider
  pub schemas : AllThere IsWholeSchema d.config_schema
  pub metadata : IfThere IsWholeStruct d.metadata

-- Of a descriptor that may be nil.
abbrev pub IsWhole : Option CapabilityDescriptor → Type 0
IsWhole d = IsWholeDescriptor (deref d)
