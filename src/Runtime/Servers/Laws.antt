-- ===== src/Runtime/Servers/Laws.antt =====
-- What a sequence of registrations leaves registered.
use mathlib.Core.List.{append_assoc}
use mathlib.Core.Option.{some-injective}
use bloem_plugin_sdk.Base.{
  String, List, [], ◌∷◌, ◌++◌, Option, none, some, ◌≡◌, refl, sym, ap, ◌∙◌, subst, ◌⊎◌, inl, inr,
  ◌↔◌, In, IsDistinct, Bool, true, not, ◌&&◌, contains, contains-eq-false, arith,
}
use bloem_plugin_sdk.Runtime.Servers.{Server, register_each}

pub In-append_iff : {A : Type 0} (x : A) (xs ys : List A) → In x (xs ++ ys) ↔ (In x xs ⊎ In x ys)
In-append_iff x [] ys = (inr, λ h. elim h [ inl e ↦ absurd e | inr m ↦ m ])
In-append_iff x (z ∷ xs) ys =
    let ih = In-append_iff x xs ys in
    (
      λ h. elim h [
        | inl e ↦ inl (inl e)
        | inr m ↦ elim (ih.0 m) [ inl l ↦ inl (inr l) | inr r ↦ inr r ]
      ],
      λ h. elim h [
        | inl l ↦ elim l [ inl e ↦ inl e | inr m ↦ inr (ih.1 (inl m)) ]
        | inr r ↦ inr (ih.1 (inr r))
      ],
    )

pub register_each-append :
    (es fs : List (String × Option Server)) (done : List (String × Server))
    → register_each (es ++ fs) done ≡ register_each fs (register_each es done)
unfolding register_each
register_each-append [] fs done = refl
register_each-append ((name, none) ∷ es) fs done = register_each-append es fs done
register_each-append ((name, some s) ∷ es) fs done =
    register_each-append es fs (done ++ ((name, s) ∷ []))

same_entry :
    {n m : String} {s t : Server}
    → ◌≡◌ {A = String × Option Server} (n, some s) (m, some t)
    → ◌≡◌ {A = String × Server} (n, s) (m, t)
same_entry {n} {m} {s} {t} e =
    let a : n ≡ m = ap (λ (p : String × Option Server). p.0) e in
    let b : s ≡ t = some-injective _ _ (ap (λ (p : String × Option Server). p.1) e) in
    rw (a, b) refl

-- Registered afterwards is what was registered before and what was offered and is not nil.
pub registered_iff :
    (es : List (String × Option Server)) (done : List (String × Server)) (name : String)
    (s : Server)
    → In (name, s) (register_each es done) ↔ (In (name, s) done ⊎ In (name, some s) es)
unfolding register_each
registered_iff [] done name s = (inl, λ h. elim h [ inl m ↦ m | inr e ↦ absurd e ])
registered_iff ((n, none) ∷ es) done name s =
    let ih = registered_iff es done name s in
    (
      λ h. elim (ih.0 h) [ inl m ↦ inl m | inr m ↦ inr (inr m) ],
      λ h. elim h [
        | inl m ↦ ih.1 (inl m)
        | inr m ↦ elim m [
          | inl e ↦ let d : some s ≡ none = ap (λ (p : String × Option Server). p.1) e in cc d
          | inr k ↦ ih.1 (inr k)
        ]
      ],
    )
registered_iff ((n, some t) ∷ es) done name s =
    let ih = registered_iff es (done ++ ((n, t) ∷ [])) name s in
    let split = In-append_iff (name, s) done ((n, t) ∷ []) in
    (
      λ h. elim (ih.0 h) [
        | inl m ↦ elim (split.0 m) [
          | inl l ↦ inl l
          | inr r ↦ elim r [
            | inl e ↦ inr (inl (ap (λ (p : String × Server). (p.0, some p.1)) e))
            | inr z ↦ absurd z
          ]
        ]
        | inr m ↦ inr (inr m)
      ],
      λ h. elim h [
        | inl m ↦ ih.1 (inl (split.1 (inl m)))
        | inr m ↦ elim m [
          | inl e ↦ ih.1 (inl (split.1 (inr (inl (same_entry e)))))
          | inr k ↦ ih.1 (inr k)
        ]
      ],
    )

-- the names of a list of entries
abbrev pub names : {A : Type 0} → List (String × A) → List String
names [] = []
names ((n, a) ∷ es) = n ∷ names es

names-append : {A : Type 0} (xs ys : List (String × A)) → names (xs ++ ys) ≡ names xs ++ names ys
names-append [] ys = refl
names-append ((n, a) ∷ xs) ys = ap (◌∷◌ n) (names-append xs ys)

IsDistinct-without :
    (xs : List String) (n : String) (ys : List String)
    → IsDistinct (xs ++ (n ∷ ys))
    → IsDistinct (xs ++ ys)
IsDistinct-without [] n ys h = h.1
IsDistinct-without (x ∷ xs) n ys h = (
  λ m. h.0 (
      (In-append_iff x xs (n ∷ ys)).1
        (elim ((In-append_iff x xs ys).0 m) [ inl l ↦ inl l | inr r ↦ inr (inr r) ])),
  IsDistinct-without xs n ys h.1,
)

IsDistinct-prefix : (xs : List String) → IsDistinct (xs ++ []) → IsDistinct xs
IsDistinct-prefix [] h = tt
IsDistinct-prefix (x ∷ xs) h =
    ((λ m. h.0 ((In-append_iff x xs []).1 (inl m))), IsDistinct-prefix xs h.1)

-- Offering services of different names, new ones too, registers no name twice.
pub register_each-IsDistinct :
    (es : List (String × Option Server)) (done : List (String × Server))
    → IsDistinct (names done ++ names es)
    → IsDistinct (names (register_each es done))
unfolding register_each
register_each-IsDistinct [] done h = IsDistinct-prefix (names done) h
register_each-IsDistinct ((n, none) ∷ es) done h =
    register_each-IsDistinct es done (IsDistinct-without (names done) n (names es) h)
register_each-IsDistinct ((n, some t) ∷ es) done h =
    register_each-IsDistinct es (done ++ ((n, t) ∷ [])) (
      subst IsDistinct
        (sym (
          ap (λ ns. ns ++ names es) (names-append done ((n, t) ∷ []))
          ∙ append_assoc (names done) (n ∷ []) (names es)))
        h)

-- whether no name is listed twice
unfoldable pub all_different : List String → Bool
unfolding contains
all_different [] = true
all_different (n ∷ ns) = not (contains ns n) && all_different ns

pub IsDistinct-of_all_different : (ns : List String) → all_different ns ≡ true → IsDistinct ns
unfolding all_different
IsDistinct-of_all_different [] h = tt
IsDistinct-of_all_different (n ∷ ns) h = (
  (contains-eq-false ns n).0 (ground (arith, h)),
  IsDistinct-of_all_different ns (ground (arith, h)),
)
