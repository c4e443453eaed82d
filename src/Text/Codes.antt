-- ===== src/Text/Codes.antt =====
-- What the scans over the characters of a text establish.
use Prim.Native.String.{[], ◌∷◌}
use bloem_plugin_sdk.Base.{ℕ, code, String, ◌≡◌, refl, ◌↔◌, ◌⊎◌, Bool, true, false, arith}
use bloem_plugin_sdk.Text.{is_control, contains_func, has_disallowed_control}

-- Every code point of a text satisfies `P`.
abbrev pub AllCodes {ℓ} : (ℕ → Type ℓ) → String → Type ℓ
AllCodes P [] = Unit
AllCodes P (c ∷ s) = P (code c) × AllCodes P s

abbrev pub IsPrintable : ℕ → Type 0
IsPrintable c = is_control c ≡ false

-- Line feed, carriage return and tab are allowed besides.
abbrev pub IsMarkdownCode : ℕ → Type 0
IsMarkdownCode c = (is_control c ≡ false) ⊎ ((c ≡ 0xa) ⊎ (c ≡ 0xd) ⊎ (c ≡ 0x9))

pub contains_func-eq-false_iff :
    (test : ℕ → Bool) (s : String)
    → (contains_func test s ≡ false) ↔ AllCodes (λ c. test c ≡ false) s
unfolding contains_func
contains_func-eq-false_iff test [] = (λ h. tt, λ h. refl)
contains_func-eq-false_iff test (c ∷ s) = ground (arith, contains_func-eq-false_iff test s)

pub no_control_iff :
    (s : String) → (has_disallowed_control s false ≡ false) ↔ AllCodes IsPrintable s
unfolding has_disallowed_control
no_control_iff [] = (λ h. tt, λ h. refl)
no_control_iff (c ∷ s) = ground (arith, no_control_iff s)

pub markdown_control_iff :
    (s : String) → (has_disallowed_control s true ≡ false) ↔ AllCodes IsMarkdownCode s
unfolding has_disallowed_control
markdown_control_iff [] = (λ h. tt, λ h. refl)
markdown_control_iff (c ∷ s) = ground (arith, markdown_control_iff s)
