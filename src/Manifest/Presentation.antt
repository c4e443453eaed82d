-- ===== src/Manifest/Presentation.antt =====
-- The presentation block of a manifest: validatePresentation and validatePresentationURL.
pub mod Laws
use Prim.Native.String.{count, len}
use bloem_plugin_sdk.Base.{
  ℕ, ◌*◌, ◌^◌, String, Bool, not, ◌&&◌, ◌||◌, Option, none, some, List, [], ◌∷◌, ltb, ◌==◌, str_eq,
  if◌then◌else◌, Result, ok, err, ◌>>◌, fail_if, wrap, for_each,
}
use bloem_plugin_sdk.Text.{
  trim_space, contains_func, is_control, equal_fold, trim_suffix, has_disallowed_control,
}
use bloem_plugin_sdk.Messages.{PluginPresentation}
use bloem_plugin_sdk.Manifest.Packages.{Url, Packages}

abbrev pub max_presentation_display_name_runes : ℕ
max_presentation_display_name_runes = 120

abbrev pub max_presentation_summary_runes : ℕ
max_presentation_summary_runes = 240

abbrev pub max_presentation_markdown_bytes : ℕ
max_presentation_markdown_bytes = 32 * 2 ^ 10

abbrev pub max_presentation_url_bytes : ℕ
max_presentation_url_bytes = 2048

abbrev pub max_presentation_identity_runes : ℕ
max_presentation_identity_runes = 120

pub data UrlError : Type 0 where
  exceeds_bytes has_whitespace invalid_url not_absolute_http has_credentials : UrlError

pub data PresentationError : Type 0 where
  outer_whitespace : String → PresentationError
  exceeds_characters : String → ℕ → PresentationError
  exceeds_bytes : String → PresentationError
  has_controls : String → PresentationError
  bad_url : String → UrlError → PresentationError

pub record SingleLineField : Type 0 where
  pub name : String
  pub value : String
  pub limit : ℕ

pub record NamedField : Type 0 where
  pub name : String
  pub value : String

abbrev pub single_line_fields : PluginPresentation → List SingleLineField
single_line_fields p =
    record {
      name = "display_name";
      value = p.display_name;
      limit = max_presentation_display_name_runes;
    }
    ∷ record { name = "summary"; value = p.summary; limit = max_presentation_summary_runes }
    ∷ record {
      name = "publisher_name";
      value = p.publisher_name;
      limit = max_presentation_identity_runes;
    }
    ∷ record {
      name = "license_spdx";
      value = p.license_spdx;
      limit = max_presentation_identity_runes;
    }
    ∷ []

abbrev pub markdown_fields : PluginPresentation → List NamedField
markdown_fields p =
    record { name = "description_markdown"; value = p.description_markdown }
    ∷ record { name = "setup_markdown"; value = p.setup_markdown }
    ∷ []

abbrev pub url_fields : PluginPresentation → List NamedField
url_fields p =
    record { name = "homepage_url"; value = p.homepage_url }
    ∷ record { name = "source_url"; value = p.source_url }
    ∷ record { name = "support_url"; value = p.support_url }
    ∷ record { name = "changelog_url"; value = p.changelog_url }
    ∷ record { name = "publisher_url"; value = p.publisher_url }
    ∷ []

-- One round of each loop.
unfoldable pub check_single_line : SingleLineField → Result PresentationError (Unit {0})
check_single_line f = do
  fail_if (not (str_eq f.value "") && not (str_eq f.value (trim_space f.value)))
      (outer_whitespace f.name)
  fail_if (ltb f.limit (count f.value)) (exceeds_characters f.name f.limit)
  fail_if (has_disallowed_control f.value Bool.false) (has_controls f.name)

unfoldable pub check_markdown : NamedField → Result PresentationError (Unit {0})
check_markdown f = do
  fail_if (ltb max_presentation_markdown_bytes (len f.value))
      (PresentationError.exceeds_bytes f.name)
  fail_if (has_disallowed_control f.value Bool.true) (has_controls f.name)

-- `strings.ContainsAny(raw, " \t\r\n")`
abbrev pub is_url_whitespace : ℕ → Bool
is_url_whitespace c = c == 0x20 || c == 0x9 || c == 0xd || c == 0xa

-- `equalCanonicalURL`
unfoldable pub equal_canonical_url : (ℕ → ℕ) → String → String → Bool
unfolding equal_fold trim_suffix
equal_canonical_url fold left right =
    equal_fold fold (trim_suffix b'/' left) (trim_suffix b'/' right)

module _ (pkg : Packages) where
  unfoldable pub check_parsed_url : Option Url → Result UrlError (Unit {0})
  check_parsed_url none = err invalid_url
  check_parsed_url (some parsed) = do
    fail_if
        ((not (str_eq parsed.scheme "http") && not (str_eq parsed.scheme "https"))
          || str_eq parsed.host "")
        not_absolute_http
    fail_if parsed.has_user has_credentials

  unfoldable pub validate_presentation_url : String → Result UrlError (Unit {0})
  unfolding check_parsed_url
  validate_presentation_url raw = if str_eq raw "" then ok tt else do
    fail_if (ltb max_presentation_url_bytes (len raw)) UrlError.exceeds_bytes
    fail_if
        (not (str_eq raw (trim_space raw))
          || contains_func is_url_whitespace raw
          || has_disallowed_control raw Bool.false)
        has_whitespace
    check_parsed_url (pkg.parse_url raw)

  unfoldable pub check_url : NamedField → Result PresentationError (Unit {0})
  unfolding validate_presentation_url
  check_url f = wrap (bad_url f.name) (validate_presentation_url f.value)

  unfoldable pub validate_presentation :
      Option PluginPresentation → Result PresentationError (Unit {0})
  unfolding check_single_line check_markdown check_url
  validate_presentation none = ok tt
  validate_presentation (some p) = do
    for_each check_single_line (single_line_fields p)
    for_each check_markdown (markdown_fields p)
    for_each check_url (url_fields p)
