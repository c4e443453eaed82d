-- ===== src/Manifest/ConfigForm/Laws.antt =====
-- Which config schemas the validator accepts.
use mathlib.Core.Option.{some-injective}
use bloem_plugin_sdk.Base.{
  named_iff, String, ◌≡◌, refl, sym, subst, ◌≢◌, ◌↔◌, ◌⊎◌, inl, inr, true, false, not, ◌&&◌,
  Bool-cases, Option, none, some, List, [], ◌∷◌, ok, wrap-eq-ok_iff, >>=-eq-ok, >>-eq-ok_iff,
  for_each_iff, for_each, ◌>>◌, passed, All, In, IsDistinct, unseen-nil, contains, contains→In,
  In→contains, lookup, is_some, str_eq, eq_iff, arith,
}
use bloem_plugin_sdk.Messages.AdminForm.{
  AdminFormCondition, AdminFormField, AdminFormSection, AdminFormDescriptor, ConfigSchema,
}
use bloem_plugin_sdk.Manifest.Packages.{ParsedSchema, Packages}
use bloem_plugin_sdk.Manifest.ConfigForm.{
  in_schema, has_reference, condition_field, check_condition, check_references, check_section_key,
  check_section, check_form, check_parsed, check_schema, validate_config_schema,
}
use bloem_plugin_sdk.Manifest.ConfigForm.Fields.{
  form_keys, keys_seen, IsFormField, check_fields_sound, check_fields_complete,
}

module _ (keys : List String) (properties : List (String × String)) where
  -- A field of the form, or a property of the schema.
  abbrev pub IsReferenced : String → Type 0
  IsReferenced k = In k keys ⊎ ((t : String) × (lookup k properties ≡ some t))

  abbrev pub IsCondition : Option AdminFormCondition → Type 0
  IsCondition c = (condition_field c ≢ "") × IsReferenced (condition_field c)

  -- Every condition of a field names a field or a property, and so does its exclusive group.
  abbrev pub HasReferences : Option AdminFormField → Type 0
  HasReferences none = Unit
  HasReferences (some f) =
      All IsCondition f.show_when
      × (f.exclusive_group_field ≢ "" → IsReferenced f.exclusive_group_field)

  -- A section lists fields of the form, and its conditions name fields or properties.
  abbrev pub IsSection : Option AdminFormSection → Type 0
  IsSection none = Unit
  IsSection (some s) = All (λ k. In k keys) s.field_keys × All IsCondition s.show_when

is_some_iff : (o : Option String) → (is_some o ≡ true) ↔ ((t : String) × (o ≡ some t))
is_some_iff none = (λ h. cc, λ h. cc (h.1))
is_some_iff (some t) = (λ h. (t, refl), λ h. refl)

-- The checks are made against the set `seen`, which has the members of `keys`.
module _ (seen keys : List String) (properties : List (String × String))
    (same : (k : String) → In k seen ↔ In k keys) where
  has_reference_iff :
      (k : String) → (has_reference seen properties k ≡ true) ↔ IsReferenced keys properties k
  unfolding has_reference
  has_reference_iff k = elim (Bool-cases (contains seen k)) [
    | inl e ↦ (λ h. inl ((same k).0 (contains→In seen k e)), λ h. rw e)
    | inr e ↦ (
      λ h. inr ((is_some_iff (lookup k properties)).0 (rw e at h)),
      λ h. elim h [
        | inl m ↦ cc (In→contains seen k ((same k).1 m))
        | inr found ↦ rw e ((is_some_iff (lookup k properties)).1 found)
      ],
    )
  ]

  reference_test_iff :
      (k : String)
      → (not (has_reference seen properties k) ≡ false) ↔ IsReferenced keys properties k
  reference_test_iff k =
      let (to, from) = has_reference_iff k in
      elim (Bool-cases (has_reference seen properties k)) [
        | inl e ↦ (λ h. to e, λ h. rw e)
        | inr e ↦ (λ h. cc (rw e at h), λ h. cc (e, from h))
      ]

  check_condition_iff :
      (key : String) (c : Option AdminFormCondition)
      → (check_condition seen properties key c ≡ ok tt) ↔ IsCondition keys properties c
  unfolding check_condition
  check_condition_iff key c = (
    λ h.
        let (named, known) = (>>-eq-ok_iff _ _ tt).0 h in
        (
          (named_iff (condition_field c)).0 (passed _ _ named),
          (reference_test_iff (condition_field c)).0 (passed _ _ known),
        ),
    λ h. rw ((named_iff (condition_field c)).1 h.0, (reference_test_iff (condition_field c)).1 h.1),
  )

  group_iff :
      (g : String)
      → ((not (str_eq g "") && not (has_reference seen properties g)) ≡ false)
        ↔ (g ≢ "" → IsReferenced keys properties g)
  group_iff g = elim (Bool-cases (str_eq g "")) [
    | inl e ↦ (λ h k. absurd (k ((eq_iff g "").0 e)), λ h. rw e)
    | inr e ↦ (
      λ h k. (reference_test_iff g).0 (rw e at h),
      λ h. rw e ((reference_test_iff g).1 (h ((named_iff g).0 e))),
    )
  ]

  check_references_iff :
      (o : Option AdminFormField)
      → (check_references seen properties o ≡ ok tt) ↔ HasReferences keys properties o
  unfolding check_references
  check_references_iff none = (λ h. tt, λ h. refl)
  check_references_iff (some f) =
      let conditions = for_each_iff _ (check_condition_iff f.key) f.show_when in
      (
        λ h.
            let (shown, group) = (>>-eq-ok_iff _ _ tt).0 h in
            (conditions.0 shown, (group_iff f.exclusive_group_field).0 (passed _ _ group)),
        λ h. rw (conditions.1 h.0, (group_iff f.exclusive_group_field).1 h.1),
      )

  check_section_key_iff :
      (section k : String) → (check_section_key seen section k ≡ ok tt) ↔ In k keys
  check_section_key_iff section k = elim (Bool-cases (contains seen k)) [
    | inl e ↦ (λ h. (same k).0 (contains→In seen k e), λ h. rw e)
    | inr e ↦ (λ h. cc (rw e at h), λ h. cc (In→contains seen k ((same k).1 h)))
  ]

  check_section_iff :
      (o : Option AdminFormSection)
      → (check_section seen properties o ≡ ok tt) ↔ IsSection keys properties o
  unfolding check_section
  check_section_iff none = (λ h. tt, λ h. refl)
  check_section_iff (some s) =
      let listed = for_each_iff _ (check_section_key_iff s.key) s.field_keys in
      let conditions = for_each_iff _ (check_condition_iff s.key) s.show_when in
      (
        λ h.
            let (members, shown) = (>>-eq-ok_iff _ _ tt).0 h in
            (listed.0 members, conditions.0 shown),
        λ h. (>>-eq-ok_iff _ _ tt).1 (listed.1 h.0, conditions.1 h.1),
      )

pub In-keys_seen_iff :
    (k : String) (seen : List String) (fields : List (Option AdminFormField))
    → In k (keys_seen seen fields) ↔ (In k seen ⊎ In k (form_keys fields))
In-keys_seen_iff k seen [] = (inl, λ h. elim h [ inl m ↦ m | inr n ↦ absurd n ])
In-keys_seen_iff k seen (none ∷ fields) = In-keys_seen_iff k seen fields
In-keys_seen_iff k seen (some f ∷ fields) =
    let (to, from) = In-keys_seen_iff k (f.key ∷ seen) fields in
    (
      λ h. elim (to h) [
        | inl old ↦ elim old [ inl e ↦ inr (inl e) | inr m ↦ inl m ]
        | inr new ↦ inr (inr new)
      ],
      λ h. elim h [
        | inl m ↦ from (inl (inr m))
        | inr n ↦ elim n [ inl e ↦ from (inl (inl e)) | inr m ↦ from (inr m) ]
      ],
    )

keys_iff :
    (fields : List (Option AdminFormField)) (k : String)
    → In k (keys_seen [] fields) ↔ In k (form_keys fields)
keys_iff fields k =
    let (to, from) = In-keys_seen_iff k [] fields in
    (λ h. elim (to h) [ inl m ↦ absurd m | inr n ↦ n ], λ h. from (inr h))

-- An admin form that fits its JSON schema: an object schema that declares each field, distinct keys,
-- controls and defaults that fit the declared types, and references only to what there is.
pub record IsForm (pkg : Packages) (form : AdminFormDescriptor) (parsed : ParsedSchema)
    : Type 0 where
  pub object : parsed.type ≡ "object"
  pub fields : All (IsFormField pkg parsed.properties) form.fields
  pub distinct : IsDistinct (form_keys form.fields)
  pub references : All (HasReferences (form_keys form.fields) parsed.properties) form.fields
  pub sections : All (IsSection (form_keys form.fields) parsed.properties) form.sections

object_iff : (s : String) → (not (str_eq s "object") ≡ false) ↔ (s ≡ "object")
object_iff s = ground (arith, eq_iff s "object")

module _ (pkg : Packages) where
  check_form_iff :
      (form : AdminFormDescriptor) (parsed : ParsedSchema)
      → (check_form pkg form parsed ≡ ok tt) ↔ IsForm pkg form parsed
  unfolding check_form
  check_form_iff form parsed =
      let seen = keys_seen [] form.fields in
      let keys = form_keys form.fields in
      let references =
        for_each_iff _ (check_references_iff seen keys parsed.properties (keys_iff form.fields))
          form.fields in
      let sections =
        for_each_iff _ (check_section_iff seen keys parsed.properties (keys_iff form.fields))
          form.sections in
      (
        λ h.
            let (object, h1) = (>>-eq-ok_iff _ _ tt).0 h in
            let (found, checked, h2) = >>=-eq-ok _ _ tt h1 in
            let (valid, distinct, _, is_seen) =
              check_fields_sound pkg parsed.properties [] form.fields found checked in
            let (referenced, sectioned) = (>>-eq-ok_iff _ _ tt).0 (
              subst
                (λ s.
                  (for_each (check_references s parsed.properties) form.fields
                    >> for_each (check_section s parsed.properties) form.sections)
                  ≡ ok tt)
                is_seen h2) in
            record {
              object = (object_iff parsed.type).0 (passed _ _ object);
              fields = valid;
              distinct = distinct;
              references = references.0 referenced;
              sections = sections.0 sectioned;
            },
        λ h.
            rw
              (
                (object_iff parsed.type).1 h.object,
                check_fields_complete pkg parsed.properties [] form.fields h.fields h.distinct
                    (unseen-nil (form_keys form.fields)),
                references.1 h.references,
              )
              (sections.1 h.sections),
      )

  -- A nil schema, one without a form, or one whose JSON schema parses and fits the form.
  abbrev pub IsFormSchema : String → Option AdminFormDescriptor → Type 0
  IsFormSchema json none = Unit
  IsFormSchema json (some form) =
      (parsed : ParsedSchema) × (pkg.parse_schema json ≡ some parsed) × IsForm pkg form parsed

  abbrev pub IsConfigSchema : Option ConfigSchema → Type 0
  IsConfigSchema none = Unit
  IsConfigSchema (some s) = IsFormSchema s.json_schema s.admin_form

  check_parsed_iff :
      (form : AdminFormDescriptor) (o : Option ParsedSchema)
      → (check_parsed pkg form o ≡ ok tt)
        ↔ ((parsed : ParsedSchema) × (o ≡ some parsed) × IsForm pkg form parsed)
  check_parsed_iff form none = (λ h. cc, λ h. cc (h.1))
  check_parsed_iff form (some parsed) = (
    λ h. (parsed, refl, (check_form_iff form parsed).0 h),
    λ h.
        (check_form_iff form parsed).1 (subst (IsForm pkg form) (sym (some-injective _ _ h.1)) h.2),
  )

  check_schema_iff :
      (s : ConfigSchema) (o : Option AdminFormDescriptor)
      → (check_schema pkg s o ≡ ok tt) ↔ IsFormSchema s.json_schema o
  check_schema_iff s none = (λ h. tt, λ h. refl)
  check_schema_iff s (some form) =
      let (to, from) = check_parsed_iff form (pkg.parse_schema s.json_schema) in
      (
        λ h. to ((wrap-eq-ok_iff (in_schema s.key) _ tt).0 h),
        λ h. (wrap-eq-ok_iff (in_schema s.key) _ tt).1 (from h),
      )

  -- A config schema is accepted exactly if its admin form, where it has one, fits it.
  pub validate_config_schema_iff :
      (o : Option ConfigSchema) → (validate_config_schema pkg o ≡ ok tt) ↔ IsConfigSchema o
  unfolding validate_config_schema
  validate_config_schema_iff none = (λ h. tt, λ h. refl)
  validate_config_schema_iff (some s) = check_schema_iff s s.admin_form
