-- ===== src/Manifest/ConfigForm/Fields.antt =====
-- What the first pass over an admin form's fields checks.
use bloem_plugin_sdk.Base.{
  named_iff, ℕ, String, ◌≡◌, refl, ◌≢◌, ◌↔◌, ◌⊎◌, inl, inr, Bool, true, false, Bool-cases, Option,
  none, some, List, [], ◌∷◌, ok, >>-eq-ok_iff, passed, All, In, IsDistinct, is_empty_iff,
  contains-eq-false, unseen-cons_iff, lookup, eq_iff, arith,
}
use bloem_plugin_sdk.Base.Int.{eqb_ℤ_iff}
use bloem_plugin_sdk.Values.{Value, Any, bool, float64, text}
use bloem_plugin_sdk.Messages.AdminForm.{control_select, control_multi_select, AdminFormField}
use bloem_plugin_sdk.Manifest.Packages.{Packages}
use bloem_plugin_sdk.Manifest.ConfigForm.{
  needs_option_list, check_control, is_bool, is_float64, is_text, check_default_type, check_default,
  check_property, check_fields,
}

-- The keys of the fields that are not nil.
abbrev pub form_keys : List (Option AdminFormField) → List String
form_keys [] = []
form_keys (none ∷ fields) = form_keys fields
form_keys (some f ∷ fields) = f.key ∷ form_keys fields

-- The set that the first pass returns.
abbrev pub keys_seen : List String → List (Option AdminFormField) → List String
keys_seen seen [] = seen
keys_seen seen (none ∷ fields) = keys_seen seen fields
keys_seen seen (some f ∷ fields) = keys_seen (f.key ∷ seen) fields

-- The options are listed, or the plugin supplies them at run time.
abbrev pub HasOptions : AdminFormField → Type 0
HasOptions f = (f.dynamic_options ≡ true) ⊎ (f.options ≢ [])

-- What a control demands of the type of its property.
abbrev pub FitsControl : AdminFormField → String → Type 0
FitsControl f property =
    (f.control ≡ control_multi_select → (property ≡ "array") × HasOptions f)
    × (f.control ≡ control_select → HasOptions f)

-- A decoded default fits the type of its property.
abbrev pub FitsType : String → Any → Type 0
FitsType property value =
    (property ≡ "boolean" → (b : Bool) × (value ≡ bool b))
    × ((property ≡ "integer") ⊎ (property ≡ "number") → (x : ℕ) × (value ≡ float64 x))
    × (property ≡ "string" → (s : String) × (value ≡ text s))

options_iff : (f : AdminFormField) → (needs_option_list f ≡ false) ↔ HasOptions f
options_iff f = elim (Bool-cases f.dynamic_options) [
  | inl dynamic ↦ (λ h. inl dynamic, λ h. rw dynamic)
  | inr static ↦ (
    λ h. inr ((is_empty_iff f.options).0 (rw static at h)),
    λ h. elim h [ inl dynamic ↦ cc | inr listed ↦ rw static ((is_empty_iff f.options).1 listed) ],
  )
]

check_control_iff :
    (f : AdminFormField) (property : String)
    → (check_control f property ≡ ok tt) ↔ FitsControl f property
unfolding check_control
check_control_iff f property = ground (
  arith,
  eqb_ℤ_iff f.control control_multi_select,
  eqb_ℤ_iff f.control control_select,
  eq_iff property "array",
  options_iff f,
)

is_bool_iff : (a : Any) → (is_bool a ≡ true) ↔ ((b : Bool) × (a ≡ bool b))
is_bool_iff (bool b) = (λ h. (b, refl), λ h. refl)
is_bool_iff a = (λ h. cc, λ h. cc (h.1))

is_float64_iff : (a : Any) → (is_float64 a ≡ true) ↔ ((x : ℕ) × (a ≡ float64 x))
is_float64_iff (float64 x) = (λ h. (x, refl), λ h. refl)
is_float64_iff a = (λ h. cc, λ h. cc (h.1))

is_text_iff : (a : Any) → (is_text a ≡ true) ↔ ((s : String) × (a ≡ text s))
is_text_iff (text s) = (λ h. (s, refl), λ h. refl)
is_text_iff a = (λ h. cc, λ h. cc (h.1))

check_default_type_tests :
    (key property : String) (value : Any)
    → (check_default_type key property value ≡ ok tt) ↔ (
        (property ≡ "boolean" → is_bool value ≡ true)
        × ((property ≡ "integer") ⊎ (property ≡ "number") → is_float64 value ≡ true)
        × (property ≡ "string" → is_text value ≡ true))
unfolding check_default_type
check_default_type_tests key property value = ground (
  arith,
  eq_iff property "boolean",
  eq_iff property "integer",
  eq_iff property "number",
  eq_iff property "string",
  eq_iff "boolean" "integer",
  eq_iff "boolean" "number",
  eq_iff "boolean" "string",
  eq_iff "integer" "string",
  eq_iff "number" "string",
)

check_default_type_iff :
    (key property : String) (value : Any)
    → (check_default_type key property value ≡ ok tt) ↔ FitsType property value
check_default_type_iff key property value =
    let (to, from) = check_default_type_tests key property value in
    let b = is_bool_iff value in
    let n = is_float64_iff value in
    let t = is_text_iff value in
    (
      λ h. let (c, d, e) = to h in ((λ q. b.0 (c q)), (λ q. n.0 (d q)), (λ q. t.0 (e q))),
      λ h. from ((λ q. b.1 (h.0 q)), (λ q. n.1 (h.1 q)), (λ q. t.1 (h.2 q))),
    )

module _ (pkg : Packages) where
  abbrev pub FitsDefault : String → Option Value → Type 0
  FitsDefault property none = Unit
  FitsDefault property (some v) = FitsType property (pkg.as_interface v)

  -- The schema declares the field's key, and its control and default fit the declared type.
  abbrev pub IsDeclared : AdminFormField → Option String → Type 0
  IsDeclared f none = ⊥
  IsDeclared f (some property) = FitsControl f property × FitsDefault property f.default_value

  abbrev pub IsFormField : List (String × String) → Option AdminFormField → Type 0
  IsFormField properties none = Unit
  IsFormField properties (some f) = (f.key ≢ "") × IsDeclared f (lookup f.key properties)

  check_default_iff :
      (key property : String) (o : Option Value)
      → (check_default pkg key property o ≡ ok tt) ↔ FitsDefault property o
  check_default_iff key property none = (λ h. tt, λ h. refl)
  check_default_iff key property (some v) = check_default_type_iff key property (pkg.as_interface v)

  check_property_iff :
      (f : AdminFormField) (o : Option String) → (check_property pkg f o ≡ ok tt) ↔ IsDeclared f o
  check_property_iff f none = (λ h. cc, λ h. absurd h)
  check_property_iff f (some property) = (
    λ h.
        let (control, default_value) = (>>-eq-ok_iff _ _ tt).0 h in
        (
          (check_control_iff f property).0 control,
          (check_default_iff f.key property f.default_value).0 default_value,
        ),
    λ h. (>>-eq-ok_iff _ _ tt).1 (
      (check_control_iff f property).1 h.0,
      (check_default_iff f.key property f.default_value).1 h.1,
    ),
  )

  pub check_fields_sound :
      (properties : List (String × String)) (seen : List String)
      (fields : List (Option AdminFormField)) (found : List String)
      → check_fields pkg properties seen fields ≡ ok found
      → All (IsFormField properties) fields
        × IsDistinct (form_keys fields)
        × All (λ k. ¬ In k seen) (form_keys fields)
        × (found ≡ keys_seen seen fields)
  unfolding check_fields
  check_fields_sound properties seen [] found h = (tt, tt, tt, cc)
  check_fields_sound properties seen (none ∷ fields) found h =
      let (a, b, c, d) = check_fields_sound properties seen fields found h in ((tt, a), b, c, d)
  check_fields_sound properties seen (some f ∷ fields) found h =
      let (named, h1) = (>>-eq-ok_iff _ _ found).0 h in
      let (fresh, h2) = (>>-eq-ok_iff _ _ found).0 h1 in
      let (declared, h3) = (>>-eq-ok_iff _ _ found).0 h2 in
      let (valid, distinct, unseen, same) =
        check_fields_sound properties (f.key ∷ seen) fields found h3 in
      let (new, old) = (unseen-cons_iff f.key seen (form_keys fields)).0 unseen in
      (
        (
          (
            (named_iff f.key).0 (passed _ _ named),
            (check_property_iff f (lookup f.key properties)).0 declared,
          ),
          valid,
        ),
        (new, distinct),
        ((contains-eq-false seen f.key).0 (passed _ _ fresh), old),
        same,
      )

  pub check_fields_complete :
      (properties : List (String × String)) (seen : List String)
      (fields : List (Option AdminFormField))
      → All (IsFormField properties) fields
      → IsDistinct (form_keys fields)
      → All (λ k. ¬ In k seen) (form_keys fields)
      → check_fields pkg properties seen fields ≡ ok (keys_seen seen fields)
  unfolding check_fields
  check_fields_complete properties seen [] valid distinct unseen = refl
  check_fields_complete properties seen (none ∷ fields) valid distinct unseen =
      check_fields_complete properties seen fields valid.1 distinct unseen
  check_fields_complete properties seen (some f ∷ fields) valid distinct unseen =
      rw
        (
          (named_iff f.key).1 valid.0.0,
          (contains-eq-false seen f.key).1 unseen.0,
          (check_property_iff f (lookup f.key properties)).1 valid.0.1,
        )
        (check_fields_complete properties (f.key ∷ seen) fields valid.1 distinct.1
          ((unseen-cons_iff f.key seen (form_keys fields)).1 (distinct.0, unseen.1)))
