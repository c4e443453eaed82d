-- ===== src/Base/Lists.antt =====
-- Lists over the native numbers, membership by recursion, and maps as association lists.
use Prim.Native.Nat.{ℕ, suc}
use Prim.Native.String.{String}
use mathlib.Core.Path.{◌≡◌, refl, sym, subst}
use mathlib.Core.Logic.{◌↔◌, ◌≢◌, ◌⊎◌, inl, inr}
use mathlib.Core.Bool.{Bool, true, false, ◌||◌}
use mathlib.Core.Option.{Option, none, some}
use mathlib.Core.List.{List, [], ◌∷◌}
use native.Mathlib.Omega.{arith}
use text.Mathlib.Text.{◌==◌ as str_eq}
use text.Mathlib.TextEquality.{eq_iff}
use bloem_plugin_sdk.Base.Tests.{if◌then◌else◌, Bool-cases}
use bloem_plugin_sdk.Base.Results.{All}

module _ {ℓ} {A : Type ℓ} where
  abbrev pub length : List A → ℕ
  length [] = 0
  length (x ∷ xs) = suc (length xs)

-- Membership as a type that computes.
abbrev pub In : {A : Type 0} → A → List A → Type 0
In a [] = ⊥
In a (x ∷ xs) = (a ≡ x) ⊎ In a xs

-- No text is listed twice.
abbrev pub IsDistinct : List String → Type 0
IsDistinct [] = Unit
IsDistinct (x ∷ xs) = ¬ In x xs × IsDistinct xs

-- `slices.Contains` at strings, and a lookup in a set of strings.
unfoldable pub contains : List String → String → Bool
contains [] k = false
contains (x ∷ xs) k = str_eq k x || contains xs k

pub contains→In : (xs : List String) (k : String) → contains xs k ≡ true → In k xs
unfolding contains
contains→In [] k h = cc
contains→In (x ∷ xs) k h = ground (arith, eq_iff k x, contains→In xs k)

pub In→contains : (xs : List String) (k : String) → In k xs → contains xs k ≡ true
unfolding contains
In→contains (x ∷ xs) k (inl e) = ground (arith, eq_iff k x)
In→contains (x ∷ xs) k (inr m) = ground (arith, In→contains xs k m)
In→contains [] k h = absurd h

pub contains-eq-false : (xs : List String) (k : String) → (contains xs k ≡ false) ↔ (¬ In k xs)
contains-eq-false xs k = elim (Bool-cases (contains xs k)) [
  | inl e ↦ (λ h. cc, λ h. absurd (h (contains→In xs k e)))
  | inr e ↦ (λ h m. cc (In→contains xs k m), λ h. e)
]

-- A map with string keys: the first entry of a key counts.
module _ {ℓ} {V : Type ℓ} where
  unfoldable pub lookup : String → List (String × V) → Option V
  lookup key [] = none
  lookup key ((k, value) ∷ table) = if str_eq k key then some value else lookup key table

  unfoldable pub insert : String → V → List (String × V) → List (String × V)
  insert key value [] = (key, value) ∷ []
  insert key value ((k, old) ∷ table) =
      if str_eq k key then (key, value) ∷ table else (k, old) ∷ insert key value table

  pub lookup-insert :
      (key sought : String) (value : V) (table : List (String × V))
      → lookup sought (insert key value table)
        ≡ (if str_eq key sought then some value else lookup sought table)
  unfolding lookup insert
  lookup-insert key sought value [] = refl
  lookup-insert key sought value ((k, old) ∷ table) =
      let rest = lookup-insert key sought value table in
      ground (arith, rest, eq_iff k sought, eq_iff key sought, eq_iff k key)

-- What holds of every item holds of a member.
pub All-In {ℓ} : {A : Type 0} (P : A → Type ℓ) {a : A} (xs : List A) → All P xs → In a xs → P a
All-In P (x ∷ xs) h (inl e) = subst P (sym e) h.0
All-In P (x ∷ xs) h (inr m) = All-In P xs h.1 m
All-In P [] h m = absurd m

-- A loop that keeps the keys it has seen: none of the rest has been seen, and `k` is not among it.
pub unseen-cons_iff :
    (k : String) (seen ks : List String)
    → All (λ j. ¬ In j (k ∷ seen)) ks ↔ ((¬ In k ks) × All (λ j. ¬ In j seen) ks)
unseen-cons_iff k seen [] = (λ h. ((λ m. m), tt), λ h. tt)
unseen-cons_iff k seen (j ∷ ks) = (
  λ h.
      let (apart, rest) = (unseen-cons_iff k seen ks).0 h.1 in
      ((λ m. elim m [ inl e ↦ h.0 (inl (sym e)) | inr n ↦ apart n ]), ((λ m. h.0 (inr m)), rest)),
  λ h. (
    (λ m. elim m [ inl e ↦ h.0 (inl (sym e)) | inr n ↦ h.1.0 n ]),
    (unseen-cons_iff k seen ks).1 ((λ m. h.0 (inr m)), h.1.1),
  ),
)

pub unseen-nil : (ks : List String) → All (λ j. ¬ In j []) ks
unseen-nil [] = tt
unseen-nil (k ∷ ks) = ((λ m. m), unseen-nil ks)

-- A search through a list by a test.
unfoldable pub any : {A : Type 0} → (A → Bool) → List A → Bool
any test [] = false
any test (x ∷ xs) = test x || any test xs

pub any_sound :
    {A : Type 0} (test : A → Bool) (xs : List A)
    → any test xs ≡ true
    → (x : A) × In x xs × (test x ≡ true)
unfolding any
any_sound test [] h = cc
any_sound test (x ∷ xs) h = elim (Bool-cases (test x)) [
  | inl e ↦ (x, inl refl, e)
  | inr e ↦ let (y, m, t) = any_sound test xs (rw e at h) in (y, inr m, t)
]

pub any_complete :
    {A : Type 0} (test : A → Bool) {x : A} (xs : List A)
    → In x xs
    → test x ≡ true
    → any test xs ≡ true
unfolding any
any_complete test (y ∷ xs) (inl e) t = let u : test y ≡ true = rw (← e) t in rw u
any_complete test (y ∷ xs) (inr m) t = ground (arith, any_complete test xs m t)
any_complete test [] m t = absurd m

abbrev pub is_empty {ℓ} : {A : Type ℓ} → List A → Bool
is_empty [] = true
is_empty (x ∷ xs) = false

abbrev pub is_some {ℓ} : {A : Type ℓ} → Option A → Bool
is_some none = false
is_some (some a) = true

pub eq-none_of_is_some {ℓ} : {A : Type ℓ} (o : Option A) → is_some o ≡ false → o ≡ none
eq-none_of_is_some none h = refl
eq-none_of_is_some (some a) h = cc

pub is_empty_iff {ℓ} : {A : Type ℓ} (xs : List A) → (is_empty xs ≡ false) ↔ (xs ≢ [])
is_empty_iff [] = (λ h. cc, λ h. absurd (h refl))
is_empty_iff (x ∷ xs) = (λ h. cc, λ h. refl)

pub named_iff : (s : String) → (str_eq s "" ≡ false) ↔ (s ≢ "")
named_iff s = ground (arith, eq_iff s "")
