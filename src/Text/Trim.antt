-- ===== src/Text/Trim.antt =====
-- What `strings.TrimSpace` leaves alone, and what it reduces to nothing.
use Prim.Native.String.{[], ◌∷◌}
use bloem_plugin_sdk.Base.{
  ℕ, Char, code, String, ◌≡◌, refl, sym, ap, ◌∙◌, ◌↔◌, ◌≢◌, inl, inr, Bool, true, false, Bool-cases,
  arith, str_eq, eq_iff,
}
use bloem_plugin_sdk.Text.{is_space, trim_left, trim_right, keep_last, trim_space}

abbrev pub starts : (ℕ → Bool) → String → Bool
starts test [] = false
starts test (c ∷ s) = test (code c)

abbrev pub ends : (ℕ → Bool) → String → Bool
ends test [] = false
ends test (c ∷ []) = test (code c)
ends test (c ∷ d ∷ s) = ends test (d ∷ s)

-- No white space at either end.
abbrev pub IsTrimmed : String → Type 0
IsTrimmed s = (starts is_space s ≡ false) × (ends is_space s ≡ false)

-- Every character is white space.
abbrev pub IsBlank : String → Type 0
IsBlank [] = Unit
IsBlank (c ∷ s) = (is_space (code c) ≡ true) × IsBlank s

module _ (test : ℕ → Bool) where
  trim_left-starts : (s : String) → starts test (trim_left test s) ≡ false
  unfolding trim_left
  trim_left-starts [] = refl
  trim_left-starts (c ∷ s) = ground (arith, trim_left-starts s)

  trim_left_fixed : (s : String) → starts test s ≡ false → trim_left test s ≡ s
  unfolding trim_left
  trim_left_fixed [] h = refl
  trim_left_fixed (c ∷ s) h = ground arith

  keep_last-starts :
      (c : Char) (t : String) → test (code c) ≡ false → starts test (keep_last test c t) ≡ false
  keep_last-starts c [] h = ground arith
  keep_last-starts c (d ∷ t) h = h

  keep_last-ends :
      (c : Char) (t : String) → ends test t ≡ false → ends test (keep_last test c t) ≡ false
  keep_last-ends c [] h = elim (Bool-cases (test (code c))) [ inl e ↦ rw e | inr e ↦ rw e e ]
  keep_last-ends c (d ∷ t) h = h

  trim_right-starts : (s : String) → starts test s ≡ false → starts test (trim_right test s) ≡ false
  unfolding trim_right
  trim_right-starts [] h = refl
  trim_right-starts (c ∷ s) h = keep_last-starts c (trim_right test s) h

  trim_right-ends : (s : String) → ends test (trim_right test s) ≡ false
  unfolding trim_right
  trim_right-ends [] = refl
  trim_right-ends (c ∷ s) = keep_last-ends c (trim_right test s) (trim_right-ends s)

  trim_right_fixed : (s : String) → ends test s ≡ false → trim_right test s ≡ s
  unfolding trim_right
  trim_right_fixed [] h = refl
  trim_right_fixed (c ∷ []) h = rw h
  trim_right_fixed (c ∷ d ∷ s) h = ap (keep_last test c) (trim_right_fixed (d ∷ s) h)

-- `TrimSpace` leaves exactly the texts alone that have no white space at either end.
pub trim_space_fixed_iff : (s : String) → (s ≡ trim_space s) ↔ IsTrimmed s
unfolding trim_space
trim_space_fixed_iff s = (
  λ h. (
    rw h (trim_right-starts is_space (trim_left is_space s) (trim_left-starts is_space s)),
    rw h (trim_right-ends is_space (trim_left is_space s)),
  ),
  λ h.
      sym (
        ap (trim_right is_space) (trim_left_fixed is_space s h.0)
        ∙ trim_right_fixed is_space s h.1),
)

module _ (test : ℕ → Bool) where
  keep_last-ne-nil : (c : Char) (t : String) → test (code c) ≡ false → keep_last test c t ≢ []
  keep_last-ne-nil c [] h = rw h (cc)
  keep_last-ne-nil c (d ∷ t) h = cc

  trim_right-eq-nil : (s : String) → starts test s ≡ false → trim_right test s ≡ [] → s ≡ []
  unfolding trim_right
  trim_right-eq-nil [] h e = refl
  trim_right-eq-nil (c ∷ s) h e = absurd (keep_last-ne-nil c (trim_right test s) h e)

trim_left-eq-nil_iff : (s : String) → (trim_left is_space s ≡ []) ↔ IsBlank s
unfolding trim_left
trim_left-eq-nil_iff [] = (λ h. tt, λ h. refl)
trim_left-eq-nil_iff (c ∷ s) = elim (Bool-cases (is_space (code c))) [
  | inl e ↦
      (λ h. (e, (trim_left-eq-nil_iff s).0 (rw e at h)), λ h. rw e ((trim_left-eq-nil_iff s).1 h.1))
  | inr e ↦ (λ h. cc (rw e at h), λ h. cc (e, h.0))
]

-- `TrimSpace` leaves nothing exactly of a text that is all white space.
pub trim_space-eq-nil_iff : (s : String) → (trim_space s ≡ []) ↔ IsBlank s
unfolding trim_space
trim_space-eq-nil_iff s = (
  λ h.
      (trim_left-eq-nil_iff s).0
        (trim_right-eq-nil is_space (trim_left is_space s) (trim_left-starts is_space s) h),
  λ h. ap (trim_right is_space) ((trim_left-eq-nil_iff s).1 h),
)

-- `strings.TrimSpace(s) == ""` is the test for a blank text.
pub label_iff : (s : String) → (str_eq (trim_space s) "" ≡ false) ↔ (¬ IsBlank s)
label_iff s = elim (Bool-cases (str_eq (trim_space s) "")) [
  | inl e ↦
      (λ h. cc, λ h. absurd (h ((trim_space-eq-nil_iff s).0 ((eq_iff (trim_space s) "").0 e))))
  | inr e ↦ (λ h b. cc (e, (eq_iff (trim_space s) "").1 ((trim_space-eq-nil_iff s).1 b)), λ h. e)
]
