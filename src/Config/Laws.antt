-- ===== src/Config/Laws.antt =====
-- Which schema is found, and which values are accepted.
use bloem_plugin_sdk.Base.{
  String, Option, none, some, List, [], ◌∷◌, ◌++◌, str_eq, ok, wrap, >>=-eq-ok, >>-eq-ok_iff,
  wrap-eq-ok_iff, All, ◌≡◌, ◌≢◌, ◌↔◌, refl, sym, ap, ◌∙◌, subst, Bool-cases, inl, inr, eq_iff,
}
use bloem_plugin_sdk.Convert.{Metadata}
use bloem_plugin_sdk.Messages.{PluginManifest}
use bloem_plugin_sdk.Messages.AdminForm.{ConfigSchema}
use bloem_plugin_sdk.Config.{
  SchemaCompiler, find_schema, schema_text, or_empty_map, resource_name, validate_value,
  validate_manifest_global_value, validate_manifest_user_value,
}

-- A schema that is nil or of another key.
abbrev pub IsOther : String → Option ConfigSchema → Type 0
IsOther key none = Unit {0}
IsOther key (some schema) = schema.key ≢ key

-- The first schema of a key.
abbrev pub IsFirst : String → List (Option ConfigSchema) → ConfigSchema → Type 0
IsFirst key schemas schema =
    (before : List (Option ConfigSchema)) × (after : List (Option ConfigSchema)) × (schemas
      ≡ before ++ (some schema ∷ after))
    × All (IsOther key) before
    × (schema.key ≡ key)

find_schema_sound :
    (key : String) (schemas : List (Option ConfigSchema)) (schema : ConfigSchema)
    → find_schema schemas key ≡ some schema
    → IsFirst key schemas schema
unfolding find_schema
find_schema_sound key [] schema h = absurd (cc h)
find_schema_sound key (none ∷ schemas) schema h =
    let (before, after, e, others, same) = find_schema_sound key schemas schema h in
    (none ∷ before, after, ap (◌∷◌ none) e, (tt, others), same)
find_schema_sound key (some s ∷ schemas) schema h = elim (Bool-cases (str_eq s.key key)) [
  | inl e ↦
      let same : s ≡ schema = cc (rw e at h) in
      (
        [],
        schemas,
        ap (λ s'. some s' ∷ schemas) same,
        tt,
        sym (ap (λ s'. s'.key) same) ∙ (eq_iff s.key key).0 e,
      )
  | inr e ↦
      let (before, after, k, others, same) = find_schema_sound key schemas schema (rw e at h) in
      (
        some s ∷ before,
        after,
        ap (◌∷◌ (some s)) k,
        ((λ k'. cc (e, (eq_iff s.key key).1 k')), others),
        same,
      )
]

find_schema_complete :
    (key : String) (before after : List (Option ConfigSchema)) (schema : ConfigSchema)
    → All (IsOther key) before
    → schema.key ≡ key
    → find_schema (before ++ (some schema ∷ after)) key ≡ some schema
unfolding find_schema
find_schema_complete key [] after schema others same = rw ((eq_iff schema.key key).1 same) refl
find_schema_complete key (none ∷ before) after schema others same =
    find_schema_complete key before after schema others.1 same
find_schema_complete key (some s ∷ before) after schema others same =
    elim (Bool-cases (str_eq s.key key)) [
      | inl e ↦ absurd (others.0 ((eq_iff s.key key).0 e))
      | inr e ↦ rw e (find_schema_complete key before after schema others.1 same)
    ]

-- FindSchema returns a schema exactly if it is the first of the list, nil entries aside, that has
-- the key.
pub find_schema_iff :
    (key : String) (schemas : List (Option ConfigSchema)) (schema : ConfigSchema)
    → (find_schema schemas key ≡ some schema) ↔ IsFirst key schemas schema
find_schema_iff key schemas schema = (
  find_schema_sound key schemas schema,
  λ (before, after, e, others, same).
      ap (λ ss. find_schema ss key) e ∙ find_schema_complete key before after schema others same,
)

module _ {D C J : Type 0} (c : SchemaCompiler D C J) where
  -- A schema is a JSON document that compiles, and accepts the value; without a value an empty map.
  pub record Accepts (schema : ConfigSchema) (key : String) (value : Option Metadata) : Type 0 where
    pub document : D
    pub compiled : C
    pub parsed : c.parse (schema_text schema) ≡ ok document
    pub added : c.add (resource_name key) document ≡ ok tt
    pub compiles : c.compile (resource_name key) document ≡ ok compiled
    pub valid : c.validate compiled (or_empty_map value) ≡ ok tt

  validate_value-eq-ok_iff :
      (schema : Option ConfigSchema) (kind key : String) (value : Option Metadata)
      → (validate_value c schema kind key value ≡ ok tt)
        ↔ ((s : ConfigSchema) × (schema ≡ some s) × Accepts s key value)
  unfolding validate_value
  validate_value-eq-ok_iff none kind key value = (λ h. absurd (cc h), λ (s, e, a). absurd (cc e))
  validate_value-eq-ok_iff (some schema) kind key value = (
    λ h.
        let (document, parsed, rest) = >>=-eq-ok (wrap _ (c.parse (schema_text schema))) _ tt h in
        let (added, rest') =
          (>>-eq-ok_iff (wrap _ (c.add (resource_name key) document)) _ tt).0 rest in
        let (compiled, compiles, valid) =
          >>=-eq-ok (wrap _ (c.compile (resource_name key) document)) _ tt rest' in
        (
          schema,
          refl,
          record {
            document = document;
            compiled = compiled;
            parsed = (wrap-eq-ok_iff _ _ _).0 parsed;
            added = (wrap-eq-ok_iff _ _ _).0 added;
            compiles = (wrap-eq-ok_iff _ _ _).0 compiles;
            valid = (wrap-eq-ok_iff _ _ _).0 valid;
          },
        ),
    λ (s, e, a).
        let same : schema ≡ s = cc e in
        rw (ap (λ t. c.parse (schema_text t)) same ∙ a.parsed, a.added, a.compiles, a.valid) refl,
  )

  -- What the manifest declares under the key accepts the value.
  abbrev pub IsDeclared : List (Option ConfigSchema) → String → Option Metadata → Type 0
  IsDeclared schemas key value =
      (schema : ConfigSchema) × IsFirst key schemas schema × Accepts schema key value

  IsDeclared-iff :
      (schemas : List (Option ConfigSchema)) (kind key : String) (value : Option Metadata)
      → (validate_value c (find_schema schemas key) kind key value ≡ ok tt)
        ↔ IsDeclared schemas key value
  IsDeclared-iff schemas kind key value =
      let whole = validate_value-eq-ok_iff (find_schema schemas key) kind key value in
      (
        λ h. let (s, found, a) = whole.0 h in (s, (find_schema_iff key schemas s).0 found, a),
        λ (s, first, a). whole.1 (s, (find_schema_iff key schemas s).1 first, a),
      )

  -- For a manifest pointer, ValidateManifestGlobalValue and ValidateManifestUserValue accept a value
  -- exactly if the manifest is there and the first of its global or user schemas with that key, nil
  -- entries aside, is a JSON document, if it is not blank, that compiles to a schema which accepts
  -- the value; a nil value counts as an empty map.
  pub validate_manifest_values_iff :
      (manifest : Option PluginManifest) (key : String) (value : Option Metadata)
      → ((validate_manifest_global_value c manifest key value ≡ ok tt) ↔ (
          (m : PluginManifest) × (manifest ≡ some m) × IsDeclared m.global_config_schema key value))
        × ((validate_manifest_user_value c manifest key value ≡ ok tt) ↔ (
            (m : PluginManifest) × (manifest ≡ some m) × IsDeclared m.user_config_schema key value))
  unfolding validate_manifest_global_value validate_manifest_user_value
  validate_manifest_values_iff none key value = (
    (λ h. absurd (cc h), λ (m, e, a). absurd (cc e)),
    (λ h. absurd (cc h), λ (m, e, a). absurd (cc e)),
  )
  validate_manifest_values_iff (some m) key value = (
    (
      λ h. (m, refl, (IsDeclared-iff m.global_config_schema _ key value).0 h),
      λ (n, e, a). (IsDeclared-iff m.global_config_schema _ key value).1 (
          let same : n ≡ m = cc e in
          subst (λ (t : PluginManifest). IsDeclared t.global_config_schema key value) same a),
    ),
    (
      λ h. (m, refl, (IsDeclared-iff m.user_config_schema _ key value).0 h),
      λ (n, e, a). (IsDeclared-iff m.user_config_schema _ key value).1 (
          let same : n ≡ m = cc e in
          subst (λ (t : PluginManifest). IsDeclared t.user_config_schema key value) same a),
    ),
  )
