-- ===== src/Base/Decimal.antt =====
-- `strconv.FormatInt` and `strconv.Itoa` of a number that is not negative, `strconv.ParseInt` in
-- base 10 at 64 bits, and `strconv.Atoi`, which is the same on 64-bit platforms. A text is the list
-- of its bytes.
use Prim.Native.Nat.{ℕ, zero, suc, ◌+◌, ◌-◌, ◌*◌, ◌/◌, ◌%◌, ◌^◌, ◌≤◌, ◌<◌}
use mathlib.Core.Path.{◌≡◌, refl, ◌∙◌}
use mathlib.Core.Logic.{◌≢◌, inl, inr}
use mathlib.Core.Bool.{true, false, ◌&&◌}
use mathlib.Core.Option.{Option, none, some}
use mathlib.Core.List.{List, [], ◌∷◌, ◌++◌}
use native.Mathlib.Omega.{arith}
use bloem_plugin_sdk.Base.Tests.{leb, ltb, ◌==◌, if◌then◌else◌, Bool-cases}
use bloem_plugin_sdk.Base.Lists.{length, is_empty}
use bloem_plugin_sdk.Base.Int.{ℤ, pos, negsuc}

abbrev pub Bytes : Type 0
Bytes = List ℕ

-- The digits of a number before a text. A number has no more digits than its own value.
print_digits : ℕ → ℕ → Bytes → Bytes
print_digits zero n out = out
print_digits (suc fuel) n out =
    let longer = print_digits fuel (n / 10) ((b'0' + n % 10) ∷ out) in
    if n == 0 then out else longer

unfoldable pub format_int : ℕ → Bytes
unfolding print_digits
format_int n = if n == 0 then b'0' ∷ [] else print_digits n n []

-- The number that digits spell behind `n`.
read_digits : ℕ → Bytes → Option ℕ
read_digits n [] = some n
read_digits n (c ∷ s) =
    let rest = read_digits (n * 10 + (c - b'0')) s in
    if leb b'0' c && leb c b'9' then rest else none

read_number : Bytes → Option ℕ
unfolding read_digits
read_number [] = none
read_number (c ∷ s) = read_digits 0 (c ∷ s)

abbrev positive : Option ℕ → Option ℤ
positive none = none
positive (some n) = if ltb n (2 ^ 63) then some (pos n) else none

abbrev negated : ℕ → ℤ
negated zero = pos zero
negated (suc n) = negsuc n

abbrev negative : Option ℕ → Option ℤ
negative none = none
negative (some n) = if leb n (2 ^ 63) then some (negated n) else none

-- `none` is an error, of syntax or of range.
unfoldable pub parse_int : Bytes → Option ℤ
unfolding read_number
parse_int [] = none
parse_int (c ∷ s) =
    if c == b'+'
    then positive (read_number s)
    else if c == b'-'
    then negative (read_number s)
    else positive (read_number (c ∷ s))

abbrev IsDigit : ℕ → Type 0
IsDigit c = (b'0' ≤ c) × (c ≤ b'9')

-- Reading the last digit of a number behind its other digits.
read_last : (n : ℕ) (out : Bytes) → read_digits (n / 10) ((b'0' + n % 10) ∷ out) ≡ read_digits n out
unfolding read_digits
read_last n out =
    let test : (leb b'0' (b'0' + n % 10) && leb (b'0' + n % 10) b'9') ≡ true = ground arith in
    let value : n / 10 * 10 + (b'0' + n % 10 - b'0') ≡ n = omega arith in rw (test, value) refl

read-print_digits :
    (fuel n : ℕ) (out : Bytes)
    → n ≤ fuel
    → read_digits 0 (print_digits fuel n out) ≡ read_digits n out
unfolding print_digits
read-print_digits zero n out h = let z : n ≡ 0 = omega arith in rw z refl
read-print_digits (suc fuel) n out h = elim (Bool-cases (n == 0)) [
  | inl e ↦ let z : n ≡ 0 = ground arith in rw (e, z) refl
  | inr e ↦
      rw e
        (read-print_digits fuel (n / 10) ((b'0' + n % 10) ∷ out) (ground arith) ∙ read_last n out)
]

-- The digits of a positive number: a first digit, and the rest.
print_digits-starts :
    (fuel n : ℕ) (c : ℕ) (out : Bytes)
    → IsDigit c
    → (d : ℕ) × (s : Bytes) × (print_digits fuel n (c ∷ out) ≡ d ∷ s) × IsDigit d
unfolding print_digits
print_digits-starts zero n c out h = (c, out, refl, h)
print_digits-starts (suc fuel) n c out h = elim (Bool-cases (n == 0)) [
  | inl e ↦ (c, out, rw e refl, h)
  | inr e ↦
      let (d, s, t, digit) =
        print_digits-starts fuel (n / 10) (b'0' + n % 10) (c ∷ out) (omega arith, omega arith) in
      (d, s, rw e t, digit)
]

format_int-starts : (n : ℕ) → (d : ℕ) × (s : Bytes) × (format_int n ≡ d ∷ s) × IsDigit d
unfolding format_int print_digits
format_int-starts zero = (b'0', [], refl, (omega arith, omega arith))
format_int-starts (suc n) =
    let e : (suc n == 0) ≡ false = ground arith in
    rw e (print_digits-starts n (suc n / 10) (b'0' + suc n % 10) [] (omega arith, omega arith))

pub format_int-ne-nil : (n : ℕ) → format_int n ≢ []
format_int-ne-nil n h = let (d, s, e, _) = format_int-starts n in cc (e, h)

read_number-format_int : (n : ℕ) → read_digits 0 (format_int n) ≡ some n
unfolding format_int read_digits
read_number-format_int zero = refl
read_number-format_int (suc n) =
    let e : (suc n == 0) ≡ false = ground arith in
    rw e (rw e at (read-print_digits (suc n) (suc n) [] (omega arith)))

parse_unsigned :
    (d : ℕ) (s : Bytes) (n : ℕ)
    → IsDigit d
    → read_digits 0 (d ∷ s) ≡ some n
    → n < 2 ^ 63
    → parse_int (d ∷ s) ≡ some (pos n)
unfolding parse_int read_number
parse_unsigned d s n digit e h =
    let plus : (d == b'+') ≡ false = ground arith in
    let minus : (d == b'-') ≡ false = ground arith in
    let fits : ltb n (2 ^ 63) ≡ true = ground arith in rw (plus, minus, e, fits) refl

-- Every number that fits an int64 is read back from its print.
pub parse_int-format_int : (n : ℕ) → n < 2 ^ 63 → parse_int (format_int n) ≡ some (pos n)
parse_int-format_int n h =
    let (d, s, e, digit) = format_int-starts n in
    let read : read_digits 0 (d ∷ s) ≡ some n = rw (← e) (read_number-format_int n) in
    rw e (parse_unsigned d s n digit read h)

pub is_empty-format_int : (n : ℕ) → is_empty (format_int n) ≡ false
is_empty-format_int n = not_nil (format_int n) (format_int-ne-nil n)
  where
    not_nil : (s : Bytes) → ¬ (s ≡ []) → is_empty s ≡ false
    not_nil [] h = absurd (h refl)
    not_nil (c ∷ s) h = refl

zeros : ℕ → Bytes
zeros zero = []
zeros (suc k) = b'0' ∷ zeros k

-- `fmt.Sprintf` with `%0wd`, of a number that is not negative
unfoldable pub pad_int : ℕ → ℕ → Bytes
unfolding zeros format_int
pad_int w n = zeros (w - length (format_int n)) ++ format_int n

read_digits-zeros : (k : ℕ) (s : Bytes) → read_digits 0 (zeros k ++ s) ≡ read_digits 0 s
unfolding read_digits zeros
read_digits-zeros zero s = refl
read_digits-zeros (suc k) s = read_digits-zeros k s

-- Zeros before a number do not change it.
pub parse_int-pad_int : (w n : ℕ) → n < 2 ^ 63 → parse_int (pad_int w n) ≡ some (pos n)
unfolding pad_int zeros
parse_int-pad_int w n h = padded (w - length (format_int n))
  where
    padded : (k : ℕ) → parse_int (zeros k ++ format_int n) ≡ some (pos n)
    padded zero = parse_int-format_int n h
    padded (suc k) =
        parse_unsigned b'0' (zeros k ++ format_int n) n (omega arith, omega arith)
          (read_digits-zeros (suc k) (format_int n) ∙ read_number-format_int n) h
