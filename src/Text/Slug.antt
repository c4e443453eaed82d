-- ===== src/Text/Slug.antt =====
-- What `watchSyncSlugPattern` matches.
use Prim.Native.String.{[], ◌∷◌}
use bloem_plugin_sdk.Base.{
  ℕ, Char, code, String, ◌≡◌, refl, ◌↔◌, ◌⊎◌, ◌≢◌, inl, inr, true, false, Bool-cases, arith,
}
use bloem_plugin_sdk.Text.{is_alnum, is_separator, expect, run, dead, slug_step, slug_from, is_slug}
use bloem_plugin_sdk.Text.Trim.{starts, ends}

-- Every character is a lower-case letter, a digit or a separator.
abbrev pub HasSlugCodes : String → Type 0
HasSlugCodes [] = Unit
HasSlugCodes (c ∷ s) =
    ((is_alnum (code c) ≡ true) ⊎ (is_separator (code c) ≡ true)) × HasSlugCodes s

-- No separator follows a separator.
abbrev pub HasNoDoubledSeparator : String → Type 0
HasNoDoubledSeparator [] = Unit
HasNoDoubledSeparator (c ∷ s) =
    ¬ ((is_separator (code c) ≡ true) × (starts is_separator s ≡ true)) × HasNoDoubledSeparator s

abbrev IsRunTail : String → Type 0
IsRunTail s = HasSlugCodes s × HasNoDoubledSeparator s × (ends is_separator s ≡ false)

-- A lower-case slug: not empty, of letters, digits and separators, with a separator neither first,
-- nor last, nor after another.
pub record IsSlug (s : String) : Type 0 where
  pub nonempty : s ≢ []
  pub slug_codes : HasSlugCodes s
  pub undoubled : HasNoDoubledSeparator s
  pub first : starts is_separator s ≡ false
  pub last : ends is_separator s ≡ false

alnum-not-separator : (c : ℕ) → is_alnum c ≡ true → is_separator c ≡ false
unfolding is_alnum is_separator
alnum-not-separator c h = ground arith

slug_from-dead : (s : String) → slug_from dead s ≡ false
unfolding slug_from
slug_from-dead [] = refl
slug_from-dead (c ∷ s) = slug_from-dead s

ends-cons_of_false :
    (c : Char) (s : String)
    → is_separator (code c) ≡ false
    → ends is_separator s ≡ false
    → ends is_separator (c ∷ s) ≡ false
ends-cons_of_false c [] h e = h
ends-cons_of_false c (d ∷ s) h e = e

ends-cons : (c : Char) (s : String) → s ≢ [] → ends is_separator (c ∷ s) ≡ ends is_separator s
ends-cons c [] h = absurd (h refl)
ends-cons c (d ∷ s) h = refl

-- What the automaton has checked of the rest, from either live state.
slug_from_sound :
    (s : String)
    → (slug_from run s ≡ true → IsRunTail s)
      × (slug_from expect s ≡ true → IsRunTail s × (starts is_separator s ≡ false) × (s ≢ []))
unfolding slug_from slug_step
slug_from_sound [] = (λ h. (tt, tt, refl), λ h. cc)
slug_from_sound (c ∷ s) =
    let (in_run, at_start) = slug_from_sound s in
    let dead_s = slug_from-dead s in
    elim (Bool-cases (is_alnum (code c))) [
      | inl a ↦
          let n = alnum-not-separator (code c) a in
          (
            λ h.
                let (codes, undoubled, last) = in_run (rw a at h) in
                ((inl a, codes), ((λ p. cc (p.0, n)), undoubled), ends-cons_of_false c s n last),
            λ h.
                let (codes, undoubled, last) = in_run (rw a at h) in
                (
                  ((inl a, codes), ((λ p. cc (p.0, n)), undoubled), ends-cons_of_false c s n last),
                  n,
                  cc,
                ),
          )
      | inr a ↦ (
        λ h. elim (Bool-cases (is_separator (code c))) [
          | inl p ↦
              let ((codes, undoubled, last), first, nonempty) = at_start (rw (a, p) at h) in
              (
                (inr p, codes),
                ((λ q. cc (q.1, first)), undoubled),
                rw (ends-cons c s nonempty) last,
              )
          | inr p ↦ cc (rw (a, p) at h, dead_s)
        ],
        λ h. cc (rw a at h, dead_s),
      )
    ]

IsRunTail-tail : (c : Char) (s : String) → IsRunTail (c ∷ s) → IsRunTail s
IsRunTail-tail c [] h = (tt, tt, refl)
IsRunTail-tail c (d ∷ s) ((_, codes), (_, undoubled), last) = (codes, undoubled, last)

nonempty_after_separator :
    (c : Char) (s : String)
    → is_separator (code c) ≡ true
    → ends is_separator (c ∷ s) ≡ false
    → s ≢ []
nonempty_after_separator c [] p e = cc
nonempty_after_separator c (d ∷ s) p e = cc

slug_from_complete :
    (s : String)
    → (IsRunTail s → slug_from run s ≡ true)
      × (IsRunTail s → starts is_separator s ≡ false → s ≢ [] → slug_from expect s ≡ true)
unfolding slug_from slug_step
slug_from_complete [] = (λ h. refl, λ h first nonempty. absurd (nonempty refl))
slug_from_complete (c ∷ s) =
    let (in_run, at_start) = slug_from_complete s in
    elim (Bool-cases (is_alnum (code c))) [
      | inl a ↦ (
        λ h. rw a (in_run (IsRunTail-tail c s h)),
        λ h first nonempty. rw a (in_run (IsRunTail-tail c s h)),
      )
      | inr a ↦ (
        λ h. elim h.0.0 [
          | inl b ↦ cc
          | inr p ↦
              rw (a, p)
                (at_start (IsRunTail-tail c s h) (not_separator h p)
                  (nonempty_after_separator c s p h.2))
        ],
        λ h first nonempty. elim h.0.0 [ inl b ↦ cc | inr p ↦ cc ],
      )
    ]
  where
    not_separator : IsRunTail (c ∷ s) → is_separator (code c) ≡ true → starts is_separator s ≡ false
    not_separator h p = elim (Bool-cases (starts is_separator s)) [
      | inl e ↦ absurd (h.1.0 (p, e))
      | inr e ↦ e
    ]

-- The pattern matches exactly the lower-case slugs.
pub is_slug_iff : (s : String) → (is_slug s ≡ true) ↔ IsSlug s
unfolding is_slug
is_slug_iff s = (
  λ h.
      let ((codes, undoubled, last), first, nonempty) = (slug_from_sound s).1 h in
      record {
        nonempty = nonempty;
        slug_codes = codes;
        undoubled = undoubled;
        first = first;
        last = last;
      },
  λ h. (slug_from_complete s).1 (h.slug_codes, h.undoubled, h.last) h.first h.nonempty,
)
