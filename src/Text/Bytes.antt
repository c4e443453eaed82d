-- ===== src/Text/Bytes.antt =====
-- `strings.TrimSpace`, `strings.HasSuffix` and `strings.TrimRight` on a Go string as its bytes, which
-- need not be valid UTF-8. White space is what `unicode.IsSpace` accepts, in its UTF-8 form.
use mathlib.Core.List.{reverse}
use bloem_plugin_sdk.Base.{
  ℕ, zero, suc, ◌-◌, Bool, true, false, ◌&&◌, ◌||◌, [], ◌∷◌, leb, ◌==◌, ◌≡◌, refl, ◌↔◌, ◌++◌,
  ==_iff, arith, if◌then◌else◌,
}
use bloem_plugin_sdk.Base.Decimal.{Bytes}

abbrev is_space_1 : ℕ → Bool
is_space_1 a = (leb 0x9 a && leb a 0xd) || a == 0x20

abbrev is_space_2 : ℕ → ℕ → Bool
is_space_2 a b = a == 0xc2 && (b == 0x85 || b == 0xa0)

abbrev is_space_3 : ℕ → ℕ → ℕ → Bool
is_space_3 a b c =
    (a == 0xe1 && b == 0x9a && c == 0x80)
    || (a == 0xe2
        && b == 0x80
        && ((leb 0x80 c && leb c 0x8a) || c == 0xa8 || c == 0xa9 || c == 0xaf))
    || (a == 0xe2 && b == 0x81 && c == 0x9f)
    || (a == 0xe3 && b == 0x80 && c == 0x80)

-- The number of bytes of the white-space character that a text starts with, 0 if there is none.
space_size : Bytes → ℕ
space_size [] = 0
space_size (a ∷ []) = if is_space_1 a then 1 else 0
space_size (a ∷ b ∷ []) = if is_space_1 a then 1 else if is_space_2 a b then 2 else 0
space_size (a ∷ b ∷ c ∷ s) =
    if is_space_1 a then 1 else if is_space_2 a b then 2 else if is_space_3 a b c then 3 else 0

-- The same at the end of a text, which is given in reverse.
last_space_size : Bytes → ℕ
last_space_size [] = 0
last_space_size (a ∷ []) = if is_space_1 a then 1 else 0
last_space_size (b ∷ a ∷ []) = if is_space_1 b then 1 else if is_space_2 a b then 2 else 0
last_space_size (c ∷ b ∷ a ∷ s) =
    if is_space_1 c then 1 else if is_space_2 b c then 2 else if is_space_3 a b c then 3 else 0

-- The text behind its leading characters of positive size; the number counts the bytes of the
-- present character that are still to be skipped.
skip_while : (Bytes → ℕ) → ℕ → Bytes → Bytes
skip_while size k [] = []
skip_while size (suc k) (c ∷ s) = skip_while size k s
skip_while size zero (c ∷ s) =
    let rest = skip_while size (size (c ∷ s) - 1) s in if size (c ∷ s) == 0 then c ∷ s else rest

-- `strings.TrimSpace`
unfoldable pub trim_bytes : Bytes → Bytes
unfolding skip_while space_size last_space_size
trim_bytes s = reverse (skip_while last_space_size 0 (reverse (skip_while space_size 0 s)))

-- `strings.HasSuffix` and `strings.TrimRight` at one byte
abbrev starts_with : ℕ → Bytes → Bool
starts_with k [] = false
starts_with k (c ∷ s) = c == k

unfoldable pub has_suffix : Bytes → ℕ → Bool
has_suffix s k = starts_with k (reverse s)

abbrev drop_leading : ℕ → Bytes → Bytes
drop_leading k [] = []
drop_leading k (c ∷ s) = let rest = drop_leading k s in if c == k then rest else c ∷ s

unfoldable pub trim_right_byte : Bytes → ℕ → Bytes
trim_right_byte s k = reverse (drop_leading k (reverse s))

trims :
    trim_bytes (0x20 ∷ 0xe2 ∷ 0x80 ∷ 0x89 ∷ 0x61 ∷ 0x20 ∷ 0x62 ∷ 0xc2 ∷ 0xa0 ∷ 0xa ∷ [])
    ≡ 0x61 ∷ 0x20 ∷ 0x62 ∷ []
unfolding trim_bytes skip_while space_size last_space_size
trims = refl

unfoldable pub bytes_eq : Bytes → Bytes → Bool
bytes_eq [] [] = true
bytes_eq (c ∷ s) (d ∷ t) = c == d && bytes_eq s t
bytes_eq _ _ = false

pub bytes_eq_iff : (s t : Bytes) → (bytes_eq s t ≡ true) ↔ (s ≡ t)
unfolding bytes_eq
bytes_eq_iff [] [] = (λ h. refl, λ h. refl)
bytes_eq_iff [] (d ∷ t) = (λ h. cc, λ h. cc)
bytes_eq_iff (c ∷ s) [] = (λ h. cc, λ h. cc)
bytes_eq_iff (c ∷ s) (d ∷ t) = ground (arith, bytes_eq_iff s t, ==_iff c d)

-- `strings.TrimPrefix`, given the whole text twice
trimmed : Bytes → Bytes → Bytes → Bytes
trimmed whole s [] = s
trimmed whole [] (d ∷ p) = whole
trimmed whole (c ∷ s) (d ∷ p) = let rest = trimmed whole s p in if c == d then rest else whole

unfoldable pub trim_prefix : Bytes → Bytes → Bytes
unfolding trimmed
trim_prefix s p = trimmed s s p

trimmed-append : (whole p s : Bytes) → trimmed whole (p ++ s) p ≡ s
unfolding trimmed
trimmed-append whole [] s = refl
trimmed-append whole (d ∷ p) s =
    let same : (d == d) ≡ true = (==_iff d d).1 refl in rw same (trimmed-append whole p s)

pub trim_prefix-append : (p s : Bytes) → trim_prefix (p ++ s) p ≡ s
unfolding trim_prefix
trim_prefix-append p s = trimmed-append (p ++ s) p s
