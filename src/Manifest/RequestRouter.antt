-- ===== src/Manifest/RequestRouter.antt =====
-- The request_router.v1 rules: validateRequestRouterCapability and the wording checks.
pub mod Laws
use Prim.Native.String.{count, ◌++◌ as append}
use bloem_plugin_sdk.Base.{
  ℕ, String, Bool, true, false, not, ◌&&◌, ◌||◌, Option, none, some, Result, ok, err, ◌>>◌, fail_if,
  wrap, str_eq, ltb, ◌==◌, is_some, if◌then◌else◌,
}
use bloem_plugin_sdk.Text.{trim_space, has_disallowed_control, contains_func}
use bloem_plugin_sdk.Capability
use bloem_plugin_sdk.Messages.{
  CapabilityDescriptor, RequestRouterDescriptor, RequestRouterWording, RequestStatusWording,
}

abbrev pub max_request_wording_label_runes : ℕ
max_request_wording_label_runes = 24

abbrev pub max_request_wording_detail_runes : ℕ
max_request_wording_detail_runes = 140

pub data WordingError : Type 0 where
  outer_whitespace exceeds_characters has_controls not_single_line : String → WordingError

pub data RequestRouterError : Type 0 where
  needs_type : RequestRouterError
  bad_wording : WordingError → RequestRouterError

-- `unicode.In(r, unicode.Zl, unicode.Zp)`
abbrev pub is_line_separator : ℕ → Bool
is_line_separator c = c == 0x2028 || c == 0x2029

unfoldable pub validate_wording_value : String → String → ℕ → Result WordingError (Unit {0})
validate_wording_value name value limit = do
  fail_if (not (str_eq value (trim_space value))) (outer_whitespace name)
  fail_if (ltb limit (count value)) (exceeds_characters name)
  fail_if (has_disallowed_control value false) (has_controls name)
  fail_if (contains_func is_line_separator value) (not_single_line name)

-- The getters on a wording, which may be nil.
abbrev pub label_of : Option RequestStatusWording → String
label_of none = ""
label_of (some w) = w.label

abbrev pub detail_of : Option RequestStatusWording → String
detail_of none = ""
detail_of (some w) = w.detail

unfoldable pub validate_status_wording :
    String → Option RequestStatusWording → Result WordingError (Unit {0})
unfolding validate_wording_value
validate_status_wording prefix wording = do
  validate_wording_value (append prefix "label") (label_of wording) max_request_wording_label_runes
  validate_wording_value (append prefix "detail") (detail_of wording)
      max_request_wording_detail_runes

-- `ValidateRequestStatusWording`
unfoldable pub validate_request_status_wording :
    Option RequestStatusWording → Result WordingError (Unit {0})
unfolding validate_status_wording
validate_request_status_wording wording = validate_status_wording "" wording

-- `ValidateRequestRouterWording`
unfoldable pub validate_request_router_wording :
    Option RequestRouterWording → Result WordingError (Unit {0})
unfolding validate_status_wording
validate_request_router_wording none = ok tt
validate_request_router_wording (some w) = do
  validate_wording_value "step" w.step max_request_wording_label_runes
  validate_status_wording "queued." w.queued
  validate_status_wording "downloading." w.downloading

-- `descriptor.GetRequestRouter().GetWording()`
abbrev pub wording_of : Option RequestRouterDescriptor → Option RequestRouterWording
wording_of none = none
wording_of (some r) = r.wording

unfoldable pub validate_request_router_capability :
    CapabilityDescriptor → Result RequestRouterError (Unit {0})
unfolding validate_request_router_wording
validate_request_router_capability d = do
  fail_if (not (str_eq d.type Capability.request_router) && is_some d.request_router) needs_type
  wrap bad_wording (validate_request_router_wording (wording_of d.request_router))
