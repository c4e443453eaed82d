-- ===== src/Text/Show.antt =====
-- The `%d` of `fmt.Sprintf`.
use Prim.Native.String.{[], ◌∷◌, ◌++◌}
use bloem_plugin_sdk.Base.{ℕ, zero, suc, ◌-◌, String, List, ◌≡◌, refl}
use bloem_plugin_sdk.Base.Int.{ℤ, pos, negsuc}
use bloem_plugin_sdk.Base.Decimal.{Bytes, format_int}

digit : String → ℕ → String
digit [] d = ""
digit (c ∷ digits) zero = c ∷ ""
digit (c ∷ digits) (suc d) = digit digits d

digits_text : Bytes → String
unfolding digit
digits_text List.[] = ""
digits_text (List.◌∷◌ c s) = digit "0123456789" (c - b'0') ++ digits_text s

unfoldable pub show_int : ℤ → String
unfolding digits_text format_int
show_int (pos n) = digits_text (format_int n)
show_int (negsuc n) = "-" ++ digits_text (format_int (suc n))

shows_port : show_int (pos 8096) ≡ "8096"
unfolding show_int
shows_port = refl
