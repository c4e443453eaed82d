-- ===== src/Manifest/RequestRouter/Laws.antt =====
-- Which wordings the validators accept.
use Prim.Native.String.{count}
use bloem_plugin_sdk.Base.{
  ℕ, ◌≤◌, String, ◌≡◌, refl, ◌≢◌, ◌↔◌, inl, inr, false, not, ◌&&◌, Bool-cases, Option, none, some,
  ok, >>-eq-ok_iff, wrap-eq-ok_iff, passed, is_some, eq-none_of_is_some, str_eq, eq_iff, arith,
}
use bloem_plugin_sdk.Text.{trim_space}
use bloem_plugin_sdk.Text.Trim.{IsTrimmed, trim_space_fixed_iff}
use bloem_plugin_sdk.Text.Codes.{AllCodes, IsPrintable, contains_func-eq-false_iff, no_control_iff}
use bloem_plugin_sdk.Capability
use bloem_plugin_sdk.Messages.{CapabilityDescriptor, RequestRouterWording, RequestStatusWording}
use bloem_plugin_sdk.Manifest.RequestRouter.{
  bad_wording, is_line_separator, validate_wording_value, validate_status_wording,
  validate_request_status_wording, validate_request_router_wording, wording_of,
  validate_request_router_capability,
}

-- One line of at most `limit` characters: no white space around it, no control character, and no
-- line or paragraph separator.
abbrev pub IsWording : ℕ → String → Type 0
IsWording limit s =
    IsTrimmed s
    × (count s ≤ limit)
    × AllCodes IsPrintable s
    × AllCodes (λ c. is_line_separator c ≡ false) s

-- A label of at most 24 characters and a detail of at most 140, both empty where there is none.
abbrev pub IsStatusWording : Option RequestStatusWording → Type 0
IsStatusWording none = Unit
IsStatusWording (some w) = IsWording 24 w.label × IsWording 140 w.detail

abbrev pub IsRouterWording : Option RequestRouterWording → Type 0
IsRouterWording none = Unit
IsRouterWording (some w) =
    IsWording 24 w.step × IsStatusWording w.queued × IsStatusWording w.downloading

validate_wording_value_iff :
    (name value : String) (limit : ℕ)
    → (validate_wording_value name value limit ≡ ok tt) ↔ IsWording limit value
unfolding validate_wording_value
validate_wording_value_iff name value limit = ground (
  arith,
  eq_iff value (trim_space value),
  trim_space_fixed_iff value,
  no_control_iff value,
  contains_func-eq-false_iff is_line_separator value,
)

validate_status_wording_iff :
    (prefix : String) (o : Option RequestStatusWording)
    → (validate_status_wording prefix o ≡ ok tt) ↔ IsStatusWording o
unfolding validate_status_wording
validate_status_wording_iff prefix none = (
  λ h. tt,
  λ h. (>>-eq-ok_iff _ _ tt).1 (
    (validate_wording_value_iff _ "" 24).1 ((refl, refl), omega arith, tt, tt),
    (validate_wording_value_iff _ "" 140).1 ((refl, refl), omega arith, tt, tt),
  ),
)
validate_status_wording_iff prefix (some w) = (
  λ h.
      let (label, detail) = (>>-eq-ok_iff _ _ tt).0 h in
      ((validate_wording_value_iff _ _ _).0 label, (validate_wording_value_iff _ _ _).0 detail),
  λ h.
      (>>-eq-ok_iff _ _ tt).1
        ((validate_wording_value_iff _ _ _).1 h.0, (validate_wording_value_iff _ _ _).1 h.1),
)

-- A status wording is accepted exactly if its label and its detail are within their limits.
pub validate_request_status_wording_iff :
    (o : Option RequestStatusWording)
    → (validate_request_status_wording o ≡ ok tt) ↔ IsStatusWording o
unfolding validate_request_status_wording
validate_request_status_wording_iff o = validate_status_wording_iff "" o

-- A router wording is accepted exactly if its step and both status wordings are.
pub validate_request_router_wording_iff :
    (o : Option RequestRouterWording)
    → (validate_request_router_wording o ≡ ok tt) ↔ IsRouterWording o
unfolding validate_request_router_wording
validate_request_router_wording_iff none = (λ h. tt, λ h. refl)
validate_request_router_wording_iff (some w) = (
  λ h.
      let (step, rest) = (>>-eq-ok_iff _ _ tt).0 h in
      let (queued, downloading) = (>>-eq-ok_iff _ _ tt).0 rest in
      (
        (validate_wording_value_iff _ _ _).0 step,
        (validate_status_wording_iff "queued." w.queued).0 queued,
        (validate_status_wording_iff "downloading." w.downloading).0 downloading,
      ),
  λ h. (>>-eq-ok_iff _ _ tt).1 (
    (validate_wording_value_iff _ _ _).1 h.0,
    (>>-eq-ok_iff _ _ tt).1 (
      (validate_status_wording_iff "queued." w.queued).1 h.1,
      (validate_status_wording_iff "downloading." w.downloading).1 h.2,
    ),
  ),
)

-- A descriptor only on request_router.v1, and an acceptable wording where there is one.
pub record IsRequestRouterCapability (d : CapabilityDescriptor) : Type 0 where
  pub absent : d.type ≢ Capability.request_router → d.request_router ≡ none
  pub wording : IsRouterWording (wording_of d.request_router)

absent_iff :
    (d : CapabilityDescriptor)
    → ((not (str_eq d.type Capability.request_router) && is_some d.request_router) ≡ false)
      ↔ (d.type ≢ Capability.request_router → d.request_router ≡ none)
absent_iff d =
    let type_iff = eq_iff d.type Capability.request_router in
    elim (Bool-cases (str_eq d.type Capability.request_router)) [
      | inl same ↦ (λ h other. absurd (other (type_iff.0 same)), λ h. rw same)
      | inr other ↦ (
        λ h _. eq-none_of_is_some d.request_router (rw other at h),
        λ h. rw (other, h (λ e. cc (other, type_iff.1 e))),
      )
    ]

-- The request-router check of a capability succeeds exactly on well-formed capabilities.
pub validate_request_router_capability_iff :
    (d : CapabilityDescriptor)
    → (validate_request_router_capability d ≡ ok tt) ↔ IsRequestRouterCapability d
unfolding validate_request_router_capability
validate_request_router_capability_iff d =
    let wording_iff = validate_request_router_wording_iff (wording_of d.request_router) in
    (
      λ h.
          let (absent, wording) = (>>-eq-ok_iff _ _ tt).0 h in
          record {
            absent = (absent_iff d).0 (passed _ _ absent);
            wording = wording_iff.0 ((wrap-eq-ok_iff bad_wording _ tt).0 wording);
          },
      λ h.
          rw ((absent_iff d).1 h.absent)
            ((wrap-eq-ok_iff bad_wording _ tt).1 (wording_iff.1 h.wording)),
    )
