-- ===== src/Base/Results.antt =====
-- Go's `error` results: `err` carries the error, and a function that returns nothing else has
-- the result `ok tt` for nil.
use mathlib.Core.Path.{◌≡◌, refl}
use mathlib.Core.Logic.{◌↔◌}
use mathlib.Core.Bool.{Bool, true, false}
use mathlib.Core.List.{List, [], ◌∷◌}
use native.Mathlib.Omega.{arith}

pub data Result {ℓ κ} (E : Type ℓ) (A : Type κ) : Type (ℓ ⊔ κ) where
  ok : A → Result E A
  err : E → Result E A

infixl 5 ◌>>=◌ ◌>>◌
abbrev pub ◌>>=◌ {ℓ κ μ} :
    {E : Type ℓ} {A : Type κ} {B : Type μ} → Result E A → (A → Result E B) → Result E B
ok a >>= f = f a
err e >>= f = err e

abbrev pub ◌>>◌ {ℓ κ} : {E : Type ℓ} {B : Type κ} → Result E (Unit {0}) → Result E B → Result E B
ok a >> k = k
err e >> k = err e

-- `if b { return e }`
abbrev pub fail_if {ℓ} : {E : Type ℓ} → Bool → E → Result E (Unit {0})
fail_if true e = err e
fail_if false e = ok tt

-- `fmt.Errorf("…: %w", err)`
abbrev pub wrap {ℓ κ μ} : {E : Type ℓ} {F : Type κ} {A : Type μ} → (E → F) → Result E A → Result F A
wrap f (ok a) = ok a
wrap f (err e) = err (f e)

-- A loop whose body may return an error.
abbrev pub for_each {ℓ κ} :
    {E : Type ℓ} {A : Type κ} → (A → Result E (Unit {0})) → List A → Result E (Unit {0})
for_each f [] = ok tt
for_each f (x ∷ xs) = f x >> for_each f xs

abbrev pub All {ℓ κ} : {A : Type ℓ} → (A → Type κ) → List A → Type κ
All P [] = Unit
All P (x ∷ xs) = P x × All P xs

module _ {ℓ} {E : Type ℓ} where
  pub fail_if-eq-ok_iff : (b : Bool) (e : E) → (fail_if b e ≡ ok tt) ↔ (b ≡ false)
  fail_if-eq-ok_iff b e = ground arith

  pub >>-eq-ok_iff {κ} :
      {B : Type κ} (m : Result E (Unit {0})) (k : Result E B) (b : B)
      → ((m >> k) ≡ ok b) ↔ ((m ≡ ok tt) × (k ≡ ok b))
  >>-eq-ok_iff (ok tt) k b = (λ h. (refl, h), λ h. h.1)
  >>-eq-ok_iff (err e) k b = (λ h. cc, λ h. cc)

  pub wrap-eq-ok_iff {κ μ} :
      {F : Type κ} {A : Type μ} (f : E → F) (r : Result E A) (a : A)
      → (wrap f r ≡ ok a) ↔ (r ≡ ok a)
  wrap-eq-ok_iff f (ok b) a = (λ h. cc, λ h. cc)
  wrap-eq-ok_iff f (err e) a = (λ h. cc, λ h. cc)

-- A loop of checks succeeds exactly if what each check stands for holds throughout.
pub for_each_iff {ℓ κ μ} :
    {E : Type ℓ} {A : Type κ} {P : A → Type μ} (f : A → Result E (Unit {0}))
    → ((x : A) → (f x ≡ ok tt) ↔ P x)
    → (xs : List A) → (for_each f xs ≡ ok tt) ↔ All P xs
for_each_iff f iff [] = (λ h. tt, λ h. refl)
for_each_iff f iff (x ∷ xs) = (
  λ h.
      let (here, rest) = (>>-eq-ok_iff (f x) (for_each f xs) tt).0 h in
      ((iff x).0 here, (for_each_iff f iff xs).0 rest),
  λ h. (>>-eq-ok_iff (f x) (for_each f xs) tt).1 ((iff x).1 h.0, (for_each_iff f iff xs).1 h.1),
)

-- An early return that was not taken.
pub passed {ℓ} : {E : Type ℓ} (b : Bool) (e : E) → fail_if b e ≡ ok tt → b ≡ false
passed b e h = (fail_if-eq-ok_iff b e).0 h

-- Inversion of a successful step that returns a value.
pub >>=-eq-ok {ℓ κ μ} :
    {E : Type ℓ} {A : Type κ} {B : Type μ} (m : Result E A) (f : A → Result E B) (b : B)
    → (m >>= f) ≡ ok b
    → (a : A) × (m ≡ ok a) × (f a ≡ ok b)
>>=-eq-ok (ok a) f b h = (a, refl, h)
>>=-eq-ok (err e) f b h = cc
