-- ===== src/Text.antt =====
-- What the SDK uses of Go's `strings`, `unicode` and `utf8` on valid UTF-8 text. A text is a native
-- string: `count` is `utf8.RuneCountInString` and `len` is Go's `len`.
pub mod Trim
pub mod Slug
pub mod Codes
pub mod Bytes
pub mod Show
use Prim.Native.String.{[], ◌∷◌}
use bloem_plugin_sdk.Base.{
  ℕ, Char, code, String, Bool, true, false, not, ◌&&◌, ◌||◌, List, map, leb, ◌==◌, if◌then◌else◌,
}

-- The code points of a text.
abbrev pub codes : String → List ℕ
codes [] = List.[]
codes (c ∷ s) = List.◌∷◌ (code c) (codes s)

-- `unicode.IsSpace`
unfoldable pub is_space : ℕ → Bool
is_space c =
    (leb 0x9 c && leb c 0xd)
    || c == 0x20
    || c == 0x85
    || c == 0xa0
    || c == 0x1680
    || (leb 0x2000 c && leb c 0x200a)
    || c == 0x2028
    || c == 0x2029
    || c == 0x202f
    || c == 0x205f
    || c == 0x3000

-- `unicode.IsControl`
unfoldable pub is_control : ℕ → Bool
is_control c = leb c 0x1f || (leb 0x7f c && leb c 0x9f)

-- `strings.TrimLeftFunc` and `strings.TrimRightFunc`, by the test on the code points
unfoldable pub trim_left : (ℕ → Bool) → String → String
trim_left test [] = []
trim_left test (c ∷ s) = if test (code c) then trim_left test s else c ∷ s

abbrev pub keep_last : (ℕ → Bool) → Char → String → String
keep_last test c [] = if test (code c) then [] else c ∷ []
keep_last test c (d ∷ t) = c ∷ d ∷ t

unfoldable pub trim_right : (ℕ → Bool) → String → String
trim_right test [] = []
trim_right test (c ∷ s) = keep_last test c (trim_right test s)

-- `strings.TrimSpace`
unfoldable pub trim_space : String → String
unfolding trim_left trim_right is_space
trim_space s = trim_right is_space (trim_left is_space s)

-- `strings.TrimSuffix` at a suffix of one character
unfoldable pub trim_suffix : ℕ → String → String
trim_suffix k [] = []
trim_suffix k (c ∷ []) = if code c == k then [] else c ∷ []
trim_suffix k (c ∷ d ∷ s) = c ∷ trim_suffix k (d ∷ s)

-- `strings.ContainsFunc` and `strings.ContainsAny`, by the test on the code points
unfoldable pub contains_func : (ℕ → Bool) → String → Bool
contains_func test [] = false
contains_func test (c ∷ s) = test (code c) || contains_func test s

-- `strings.EqualFold`, where `fold` maps a code point to one representative of its class under
-- Unicode's simple case folding
abbrev same_codes : List ℕ → List ℕ → Bool
same_codes List.[] List.[] = true
same_codes (List.◌∷◌ a as') (List.◌∷◌ b bs) = a == b && same_codes as' bs
same_codes _ _ = false

unfoldable pub equal_fold : (ℕ → ℕ) → String → String → Bool
equal_fold fold s t = same_codes (map fold (codes s)) (map fold (codes t))

-- `hasDisallowedControl`; with `allow` line breaks and tabs pass.
abbrev pub is_markdown_whitespace : ℕ → Bool
is_markdown_whitespace c = c == 0xa || c == 0xd || c == 0x9

unfoldable pub has_disallowed_control : String → Bool → Bool
unfolding is_control
has_disallowed_control [] allow = false
has_disallowed_control (c ∷ s) allow =
    let rest = has_disallowed_control s allow in
    if not (is_control (code c))
    then rest
    else if allow && is_markdown_whitespace (code c)
    then rest
    else true

-- `[a-z0-9]` and `[._-]` of `watchSyncSlugPattern`
unfoldable pub is_alnum : ℕ → Bool
is_alnum c = (leb b'a' c && leb c b'z') || (leb b'0' c && leb c b'9')

unfoldable pub is_separator : ℕ → Bool
is_separator c = c == b'.' || c == b'_' || c == b'-'

-- `watchSyncSlugPattern`, `^[a-z0-9]+(?:[._-][a-z0-9]+)*$`, as its automaton: `expect` waits for the
-- first character of a run, `run` is inside a run, and `dead` has failed.
pub data SlugState : Type 0 where
  expect run dead : SlugState

unfoldable pub slug_step : SlugState → ℕ → SlugState
unfolding is_alnum is_separator
slug_step expect c = if is_alnum c then run else dead
slug_step run c = if is_alnum c then run else if is_separator c then expect else dead
slug_step dead c = dead

abbrev pub is_run : SlugState → Bool
is_run run = true
is_run _ = false

unfoldable pub slug_from : SlugState → String → Bool
unfolding slug_step
slug_from st [] = is_run st
slug_from st (c ∷ s) = slug_from (slug_step st (code c)) s

-- `watchSyncSlugPattern.MatchString`
unfoldable pub is_slug : String → Bool
unfolding slug_from
is_slug s = slug_from expect s
