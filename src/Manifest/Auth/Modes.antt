-- ===== src/Manifest/Auth/Modes.antt =====
-- The auth modes of an auth_provider.v1 capability, and the loop that checks them.
use bloem_plugin_sdk.Base.{
  ℕ, String, ◌≡◌, refl, ◌≢◌, ◌↔◌, ◌⊎◌, inl, inr, false, Bool-cases, List, [], ◌∷◌, ok, >>-eq-ok_iff,
  passed, for_each_iff, All, In, IsDistinct, contains-eq-false, unseen-cons_iff, str_eq, eq_iff,
}
use bloem_plugin_sdk.Text.{equal_fold}
use bloem_plugin_sdk.Text.Trim.{IsBlank, label_iff}
use bloem_plugin_sdk.Manifest.Auth.{known_modes, check_spelling, check_modes}

-- The set that the loop returns.
abbrev pub modes_seen : List String → List String → List String
modes_seen seen [] = seen
modes_seen seen (mode ∷ modes) = modes_seen (mode ∷ seen) modes

pub In-modes_seen_iff :
    (k : String) (seen modes : List String)
    → In k (modes_seen seen modes) ↔ (In k seen ⊎ In k modes)
In-modes_seen_iff k seen [] = (inl, λ h. elim h [ inl m ↦ m | inr n ↦ absurd n ])
In-modes_seen_iff k seen (mode ∷ modes) =
    let (to, from) = In-modes_seen_iff k (mode ∷ seen) modes in
    (
      λ h. elim (to h) [
        | inl old ↦ elim old [ inl e ↦ inr (inl e) | inr m ↦ inl m ]
        | inr new ↦ inr (inr new)
      ],
      λ h. elim h [
        | inl m ↦ from (inl (inr m))
        | inr n ↦ elim n [ inl e ↦ from (inl (inl e)) | inr m ↦ from (inr m) ]
      ],
    )

module _ (fold : ℕ → ℕ) where
  -- Not blank, and not a known mode in other letter case.
  abbrev pub IsMode : String → Type 0
  IsMode mode =
      (¬ IsBlank mode)
      × All (λ known. mode ≢ known → equal_fold fold mode known ≡ false) known_modes

  check_spelling_iff :
      (mode known : String)
      → (check_spelling fold mode known ≡ ok tt)
        ↔ (mode ≢ known → equal_fold fold mode known ≡ false)
  check_spelling_iff mode known = elim (Bool-cases (str_eq mode known)) [
    | inl same ↦ (λ h other. absurd (other ((eq_iff mode known).0 same)), λ h. rw same)
    | inr other ↦ (
      λ h _. passed _ _ (rw other at h),
      λ h. rw (other, h (λ e. cc (other, (eq_iff mode known).1 e))),
    )
  ]

  -- What a successful run of the loop has checked, and the set that it returns.
  pub check_modes_sound :
      (seen modes found : List String)
      → check_modes fold seen modes ≡ ok found
      → All IsMode modes
        × IsDistinct modes
        × All (λ k. ¬ In k seen) modes
        × (found ≡ modes_seen seen modes)
  unfolding check_modes
  check_modes_sound seen [] found h = (tt, tt, tt, cc)
  check_modes_sound seen (mode ∷ modes) found h =
      let (nonblank, h1) = (>>-eq-ok_iff _ _ found).0 h in
      let (spelled, h2) = (>>-eq-ok_iff _ _ found).0 h1 in
      let (fresh, h3) = (>>-eq-ok_iff _ _ found).0 h2 in
      let (valid, distinct, unseen, same) = check_modes_sound (mode ∷ seen) modes found h3 in
      let (new, old) = (unseen-cons_iff mode seen modes).0 unseen in
      (
        (
          (
            (label_iff mode).0 (passed _ _ nonblank),
            (for_each_iff (check_spelling fold mode) (check_spelling_iff mode) known_modes).0
                spelled,
          ),
          valid,
        ),
        (new, distinct),
        ((contains-eq-false seen mode).0 (passed _ _ fresh), old),
        same,
      )

  -- Modes that are well formed, distinct and new pass the loop.
  pub check_modes_complete :
      (seen modes : List String)
      → All IsMode modes
      → IsDistinct modes
      → All (λ k. ¬ In k seen) modes
      → check_modes fold seen modes ≡ ok (modes_seen seen modes)
  unfolding check_modes
  check_modes_complete seen [] valid distinct unseen = refl
  check_modes_complete seen (mode ∷ modes) valid distinct unseen =
      rw
        (
          (label_iff mode).1 valid.0.0,
          (for_each_iff (check_spelling fold mode) (check_spelling_iff mode) known_modes).1
              valid.0.1,
          (contains-eq-false seen mode).1 unseen.0,
        )
        (check_modes_complete (mode ∷ seen) modes valid.1 distinct.1
          ((unseen-cons_iff mode seen modes).1 (distinct.0, unseen.1)))
