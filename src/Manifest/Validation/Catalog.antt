-- ===== src/Manifest/Validation/Catalog.antt =====
-- The stricter contract of curated catalogs.
use mathlib.Core.Option.{some-injective}
use bloem_plugin_sdk.Base.{
  named_iff, String, ◌≡◌, refl, sym, subst, ◌≢◌, ◌↔◌, inl, inr, true, false, not, ◌&&◌, Bool-cases,
  Option, none, some, ok, >>-eq-ok_iff, for_each_iff, fail_if-eq-ok_iff, passed, All, str_eq,
  eq_iff,
}
use bloem_plugin_sdk.Text.Trim.{IsBlank, label_iff}
use bloem_plugin_sdk.Messages.{PluginPresentation, PluginManifest}
use bloem_plugin_sdk.Manifest.Packages.{Packages}
use bloem_plugin_sdk.Manifest.Presentation.{NamedField, equal_canonical_url}
use bloem_plugin_sdk.Manifest.Validation.{
  required_fields, check_required, check_catalog, presentation_of, validate_catalog_presentation,
}
use bloem_plugin_sdk.Manifest.Validation.Laws.{IsManifestPointer, validate_iff}

-- Every operator-facing field is filled in.
pub record IsFilled (p : PluginPresentation) : Type 0 where
  pub display_name : ¬ IsBlank p.display_name
  pub summary : ¬ IsBlank p.summary
  pub description_markdown : ¬ IsBlank p.description_markdown
  pub setup_markdown : ¬ IsBlank p.setup_markdown
  pub homepage_url : ¬ IsBlank p.homepage_url
  pub source_url : ¬ IsBlank p.source_url
  pub support_url : ¬ IsBlank p.support_url
  pub changelog_url : ¬ IsBlank p.changelog_url
  pub publisher_name : ¬ IsBlank p.publisher_name
  pub publisher_url : ¬ IsBlank p.publisher_url
  pub license_spdx : ¬ IsBlank p.license_spdx

check_required_iff : (f : NamedField) → (check_required f ≡ ok tt) ↔ (¬ IsBlank f.value)
check_required_iff f =
    let (to, from) = label_iff f.value in (λ h. to (passed _ _ h), λ h. rw (from h))

module _ (pkg : Packages) where
  source_iff :
      (p : PluginPresentation) (expected : String)
      → ((not (str_eq expected "") && not (equal_canonical_url pkg.fold p.source_url expected))
          ≡ false)
        ↔ (expected ≢ "" → equal_canonical_url pkg.fold p.source_url expected ≡ true)
  source_iff p expected =
      let same = equal_canonical_url pkg.fold p.source_url expected in
      elim (Bool-cases (str_eq expected "")) [
        | inl e ↦ (λ h k. absurd (k ((eq_iff expected "").0 e)), λ h. rw e)
        | inr e ↦ elim (Bool-cases same) [
          | inl s ↦ (λ h k. s, λ h. rw (e, s))
          | inr s ↦ (λ h. cc (rw (e, s) at h), λ h. cc (s, h ((named_iff expected).0 e)))
        ]
      ]

  IsFilled-iff :
      (p : PluginPresentation) → All (λ f. ¬ IsBlank f.value) (required_fields p) ↔ IsFilled p
  IsFilled-iff p = (
    λ f0.
        let f1 = f0.1 in
        let f2 = f1.1 in
        let f3 = f2.1 in
        let f4 = f3.1 in
        let f5 = f4.1 in
        let f6 = f5.1 in
        let f7 = f6.1 in
        let f8 = f7.1 in
        let f9 = f8.1 in
        record {
          display_name = f0.0;
          summary = f1.0;
          description_markdown = f2.0;
          setup_markdown = f3.0;
          homepage_url = f4.0;
          source_url = f5.0;
          support_url = f6.0;
          changelog_url = f7.0;
          publisher_name = f8.0;
          publisher_url = f9.0;
          license_spdx = f9.1.0;
        },
    λ h. (
      h.display_name,
      (
        h.summary,
        (
          h.description_markdown,
          (
            h.setup_markdown,
            (
              h.homepage_url,
              (
                h.source_url,
                (
                  h.support_url,
                  (h.changelog_url, (h.publisher_name, (h.publisher_url, (h.license_spdx, tt)))),
                ),
              ),
            ),
          ),
        ),
      ),
    ),
  )

  -- The source address matches the expected one, where one is expected.
  abbrev pub HasSource : String → PluginPresentation → Type 0
  HasSource expected p = expected ≢ "" → equal_canonical_url pkg.fold p.source_url expected ≡ true

  check_catalog_present_iff :
      (expected : String) (p : PluginPresentation)
      → (check_catalog pkg expected (some p) ≡ ok tt) ↔ (IsFilled p × HasSource expected p)
  check_catalog_present_iff expected p =
      let fields = for_each_iff check_required check_required_iff (required_fields p) in
      (
        λ h.
            let (filled, matched) = (>>-eq-ok_iff _ _ tt).0 h in
            ((IsFilled-iff p).0 (fields.0 filled), (source_iff p expected).0 (passed _ _ matched)),
        λ h. (>>-eq-ok_iff _ _ tt).1 (
          fields.1 ((IsFilled-iff p).1 h.0),
          (fail_if-eq-ok_iff _ _).1 ((source_iff p expected).1 h.1),
        ),
      )

  check_catalog_iff :
      (expected : String) (o : Option PluginPresentation)
      → (check_catalog pkg expected o ≡ ok tt)
        ↔ ((p : PluginPresentation) × (o ≡ some p) × IsFilled p × HasSource expected p)
  check_catalog_iff expected none = (λ h. cc, λ h. cc (h.1))
  check_catalog_iff expected (some p) =
      let (to, from) = check_catalog_present_iff expected p in
      (
        λ h. let (filled, source) = to h in (p, refl, filled, source),
        λ h.
            let same = sym (some-injective _ _ h.1) in
            from (subst IsFilled same h.2, subst (HasSource expected) same h.3),
      )

  -- A manifest is ready for a catalog exactly if it is well formed, has a presentation whose
  -- operator-facing fields are all filled in, and names the expected source.
  pub validate_catalog_presentation_iff :
      (m : Option PluginManifest) (expected : String)
      → (validate_catalog_presentation pkg m expected ≡ ok tt) ↔ (
          IsManifestPointer pkg m
          × ((p : PluginPresentation) × (presentation_of m ≡ some p)
              × IsFilled p
              × HasSource expected p))
  unfolding validate_catalog_presentation
  validate_catalog_presentation_iff m expected =
      let valid = validate_iff pkg m in
      let catalog = check_catalog_iff expected (presentation_of m) in
      (
        λ h. let (v, c) = (>>-eq-ok_iff _ _ tt).0 h in (valid.0 v, catalog.0 c),
        λ h. (>>-eq-ok_iff _ _ tt).1 (valid.1 h.0, catalog.1 h.1),
      )
