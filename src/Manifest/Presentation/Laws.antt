-- ===== src/Manifest/Presentation/Laws.antt =====
-- What a presentation block must satisfy, and that the validator accepts exactly such blocks.
use Prim.Native.String.{count, len}
use mathlib.Core.Option.{some-injective}
use bloem_plugin_sdk.Base.{
  ℕ, ◌≤◌, String, ◌≡◌, refl, ◌≢◌, ◌↔◌, ◌⊎◌, inl, inr, false, Option, none, some, ok, wrap-eq-ok_iff,
  >>-eq-ok_iff, for_each_iff, arith, eq_iff, str_eq, sym, subst, not, ◌&&◌, Bool-cases,
}
use bloem_plugin_sdk.Text.{trim_space}
use bloem_plugin_sdk.Text.Trim.{IsTrimmed, trim_space_fixed_iff}
use bloem_plugin_sdk.Text.Codes.{
  AllCodes, IsPrintable, IsMarkdownCode, contains_func-eq-false_iff, no_control_iff,
  markdown_control_iff,
}
use bloem_plugin_sdk.Messages.{PluginPresentation}
use bloem_plugin_sdk.Manifest.Packages.{Url, Packages}
use bloem_plugin_sdk.Manifest.Presentation.{
  SingleLineField, NamedField, max_presentation_markdown_bytes, max_presentation_url_bytes, bad_url,
  single_line_fields, markdown_fields, url_fields, check_single_line, check_markdown,
  check_parsed_url, check_url, is_url_whitespace, validate_presentation_url, validate_presentation,
}

-- One line of at most `limit` characters, with no white space around it and no control character.
abbrev pub IsLine : ℕ → String → Type 0
IsLine limit s = IsTrimmed s × (count s ≤ limit) × AllCodes IsPrintable s

-- At most 32 KiB, with no control character but line feeds, carriage returns and tabs.
abbrev pub IsMarkdown : String → Type 0
IsMarkdown s = (len s ≤ max_presentation_markdown_bytes) × AllCodes IsMarkdownCode s

-- An absolute web address without credentials.
abbrev pub IsWebUrl : Url → Type 0
IsWebUrl u = ((u.scheme ≡ "http") ⊎ (u.scheme ≡ "https")) × (u.host ≢ "") × (u.has_user ≡ false)

IsTrimmed-of_eq_nil : (s : String) → s ≡ "" → IsTrimmed s
IsTrimmed-of_eq_nil s e = subst IsTrimmed (sym e) (refl, refl)

-- The test on the white space around a single-line field.
outer_whitespace_iff :
    (s : String) → ((not (str_eq s "") && not (str_eq s (trim_space s))) ≡ false) ↔ IsTrimmed s
outer_whitespace_iff s = elim (Bool-cases (str_eq s "")) [
  | inl e ↦ (λ h. IsTrimmed-of_eq_nil s ((eq_iff s "").0 e), λ h. rw e)
  | inr n ↦ elim (Bool-cases (str_eq s (trim_space s))) [
    | inl e ↦ (λ h. (trim_space_fixed_iff s).0 ((eq_iff s (trim_space s)).0 e), λ h. rw (n, e))
    | inr m ↦ (
      λ h. cc (rw (n, m) at h),
      λ h. cc (m, (eq_iff s (trim_space s)).1 ((trim_space_fixed_iff s).1 h)),
    )
  ]
]

check_single_line_iff :
    (f : SingleLineField) → (check_single_line f ≡ ok tt) ↔ IsLine f.limit f.value
unfolding check_single_line
check_single_line_iff f = ground (arith, outer_whitespace_iff f.value, no_control_iff f.value)

check_markdown_iff : (f : NamedField) → (check_markdown f ≡ ok tt) ↔ IsMarkdown f.value
unfolding check_markdown
check_markdown_iff f = ground (arith, markdown_control_iff f.value)

module _ (pkg : Packages) where
  -- No address, or an acceptable one: at most 2048 bytes, no white space or control character, and
  -- parsed as an absolute web address without credentials.
  abbrev pub IsAddress : String → Type 0
  IsAddress raw =
      (raw ≡ "")
      ⊎ ((len raw ≤ max_presentation_url_bytes)
          × IsTrimmed raw
          × AllCodes (λ c. is_url_whitespace c ≡ false) raw
          × AllCodes IsPrintable raw
          × ((u : Url) × (pkg.parse_url raw ≡ some u) × IsWebUrl u))

  IsWebUrl-iff : (u : Url) → (check_parsed_url pkg (some u) ≡ ok tt) ↔ IsWebUrl u
  unfolding check_parsed_url
  IsWebUrl-iff u = ground (arith, eq_iff u.scheme "http", eq_iff u.scheme "https", eq_iff u.host "")

  check_parsed_url_iff :
      (o : Option Url) → (check_parsed_url pkg o ≡ ok tt) ↔ ((u : Url) × (o ≡ some u) × IsWebUrl u)
  unfolding check_parsed_url
  check_parsed_url_iff none = (λ h. cc, λ h. cc (h.1))
  check_parsed_url_iff (some u) = (
    λ h. (u, refl, (IsWebUrl-iff u).0 h),
    λ h. (IsWebUrl-iff u).1 (subst IsWebUrl (sym (some-injective _ _ h.1)) h.2),
  )

  validate_presentation_url_iff :
      (raw : String) → (validate_presentation_url pkg raw ≡ ok tt) ↔ IsAddress raw
  unfolding validate_presentation_url
  validate_presentation_url_iff raw = ground (
    arith,
    eq_iff raw "",
    eq_iff raw (trim_space raw),
    trim_space_fixed_iff raw,
    contains_func-eq-false_iff is_url_whitespace raw,
    no_control_iff raw,
    check_parsed_url_iff (pkg.parse_url raw),
  )

-- What holds of an acceptable presentation block, field by field.
pub record IsPresentable (pkg : Packages) (p : PluginPresentation) : Type 0 where
  pub display_name : IsLine 120 p.display_name
  pub summary : IsLine 240 p.summary
  pub publisher_name : IsLine 120 p.publisher_name
  pub license_spdx : IsLine 120 p.license_spdx
  pub description_markdown : IsMarkdown p.description_markdown
  pub setup_markdown : IsMarkdown p.setup_markdown
  pub homepage_url : IsAddress pkg p.homepage_url
  pub source_url : IsAddress pkg p.source_url
  pub support_url : IsAddress pkg p.support_url
  pub changelog_url : IsAddress pkg p.changelog_url
  pub publisher_url : IsAddress pkg p.publisher_url

-- An absent block, or an acceptable one.
abbrev pub IsPresentation : Packages → Option PluginPresentation → Type 0
IsPresentation pkg none = Unit
IsPresentation pkg (some p) = IsPresentable pkg p

module _ (pkg : Packages) where
  check_url_iff : (f : NamedField) → (check_url pkg f ≡ ok tt) ↔ IsAddress pkg f.value
  unfolding check_url
  check_url_iff f =
      let inner = wrap-eq-ok_iff (bad_url f.name) (validate_presentation_url pkg f.value) tt in
      let address = validate_presentation_url_iff pkg f.value in
      (λ h. address.0 (inner.0 h), λ h. inner.1 (address.1 h))

  -- The block is accepted exactly if it is absent or each of its fields is acceptable.
  pub validate_presentation_iff :
      (o : Option PluginPresentation) → (validate_presentation pkg o ≡ ok tt) ↔ IsPresentation pkg o
  unfolding validate_presentation
  validate_presentation_iff none = (λ h. tt, λ h. refl)
  validate_presentation_iff (some p) = (
    λ h.
        let (lines, rest) = (>>-eq-ok_iff _ _ tt).0 h in
        let (markdown, urls) = (>>-eq-ok_iff _ _ tt).0 rest in
        let l =
          (for_each_iff check_single_line check_single_line_iff (single_line_fields p)).0 lines in
        let m = (for_each_iff check_markdown check_markdown_iff (markdown_fields p)).0 markdown in
        let u = (for_each_iff (check_url pkg) check_url_iff (url_fields p)).0 urls in
        record {
          display_name = l.0;
          summary = l.1.0;
          publisher_name = l.1.1.0;
          license_spdx = l.1.1.1.0;
          description_markdown = m.0;
          setup_markdown = m.1.0;
          homepage_url = u.0;
          source_url = u.1.0;
          support_url = u.1.1.0;
          changelog_url = u.1.1.1.0;
          publisher_url = u.1.1.1.1.0;
        },
    λ h. (>>-eq-ok_iff _ _ tt).1 (
      (for_each_iff check_single_line check_single_line_iff (single_line_fields p)).1
          (h.display_name, (h.summary, (h.publisher_name, (h.license_spdx, tt)))),
      (>>-eq-ok_iff _ _ tt).1 (
        (for_each_iff check_markdown check_markdown_iff (markdown_fields p)).1
            (h.description_markdown, (h.setup_markdown, tt)),
        (for_each_iff (check_url pkg) check_url_iff (url_fields p)).1 (
          h.homepage_url,
          (h.source_url, (h.support_url, (h.changelog_url, (h.publisher_url, tt)))),
        ),
      ),
    ),
  )
