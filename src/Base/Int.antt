-- ===== src/Base/Int.antt =====
-- Go's signed integers over the native numbers; `int32` is the wrapping conversion.
use Prim.Native.Nat.{ℕ, suc, ◌+◌, ◌-◌, ◌%◌, ◌^◌, ◌≤◌, ◌<◌}
use mathlib.Core.Path.{◌≡◌, subst}
use mathlib.Core.Logic.{◌↔◌}
use mathlib.Core.Bool.{Bool, true}
use native.Mathlib.Omega.{arith}
use bloem_plugin_sdk.Base.Tests.{ltb, ◌==◌, if◌then◌else◌}

-- `negsuc n` is -(n + 1).
pub data ℤ : Type 0 where
  pos : ℕ → ℤ
  negsuc : ℕ → ℤ

abbrev pub pos_part : ℤ → ℕ
pos_part (pos n) = n
pos_part (negsuc n) = 0

abbrev pub neg_part : ℤ → ℕ
neg_part (pos n) = 0
neg_part (negsuc n) = suc n

infix 50 ◌≤ℤ◌
abbrev pub ◌≤ℤ◌ : ℤ → ℤ → Type 0
a ≤ℤ b = pos_part a + neg_part b ≤ pos_part b + neg_part a

abbrev pub ltb_ℤ : ℤ → ℤ → Bool
ltb_ℤ a b = ltb (pos_part a + neg_part b) (pos_part b + neg_part a)

abbrev pub eqb_ℤ : ℤ → ℤ → Bool
eqb_ℤ a b = (pos_part a + neg_part b) == (pos_part b + neg_part a)

pub eqb_ℤ_iff : (a b : ℤ) → (eqb_ℤ a b ≡ true) ↔ (a ≡ b)
eqb_ℤ_iff a b = ground arith

-- The low 32 bits of a number, read as a signed integer.
abbrev signed_32 : ℕ → ℤ
signed_32 r = if ltb r (2 ^ 31) then pos r else negsuc (2 ^ 32 - 1 - r)

-- `int32(x)`
unfoldable pub int32 : ℤ → ℤ
int32 (pos n) = signed_32 (n % 2 ^ 32)
int32 (negsuc n) = signed_32 (2 ^ 32 - 1 - n % 2 ^ 32)

-- The values of an `int32`.
abbrev pub IsInt32 : ℤ → Type 0
IsInt32 z = (pos_part z < 2 ^ 31) × (neg_part z ≤ 2 ^ 31)

pub int32-IsInt32 : (z : ℤ) → IsInt32 (int32 z)
unfolding int32
int32-IsInt32 (pos n) = ground arith
int32-IsInt32 (negsuc n) = ground arith

pub int32_of_IsInt32 : (z : ℤ) → IsInt32 z → int32 z ≡ z
unfolding int32
int32_of_IsInt32 (pos n) h = ground arith
int32_of_IsInt32 (negsuc n) h = ground arith

-- An int that is not negative survives the conversion exactly below 2^31.
pub int32-pos_iff : (n : ℕ) → (int32 (pos n) ≡ pos n) ↔ (n < 2 ^ 31)
int32-pos_iff n = (
  λ h. (subst IsInt32 h (int32-IsInt32 (pos n))).0,
  λ h. int32_of_IsInt32 (pos n) (h, omega arith),
)
