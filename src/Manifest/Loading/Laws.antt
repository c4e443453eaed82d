-- ===== src/Manifest/Loading/Laws.antt =====
-- What loading and registration return.
use Prim.Native.String.{◌++◌ as append}
use mathlib.Core.List.{append_assoc}
use bloem_plugin_sdk.Base.{
  ℕ, zero, suc, ◌/◌, ◌%◌, [], ◌∷◌, ◌≢◌, ◌⊎◌, inl, inr, ◌∙◌, str_eq, Bool-cases, named_iff, eq_iff,
  String, ◌≡◌, refl, sym, ap, subst, ◌↔◌, Option, none, some, List, ◌++◌, Result, ok, err, ◌>>=◌,
  ◌>>◌, wrap-eq-ok_iff, >>=-eq-ok, >>-eq-ok_iff,
}
use bloem_plugin_sdk.Messages.{PluginManifest, HttpRouteDescriptor, PackagedAsset}
use bloem_plugin_sdk.Manifest.Packages.{Packages}
use bloem_plugin_sdk.Manifest.Validation.{check_manifest}
use bloem_plugin_sdk.Manifest.Validation.Laws.{IsManifest, validate_iff}
use bloem_plugin_sdk.Manifest.Loading.{
  Bytes, System, LoadError, or_error, invalid, hex_digit, hex_encode, load, must_load, returns,
  or_panic, with_version, load_with_checksum, register_http_routes, register_assets,
}

or_error-eq-ok_iff :
    {A : Type 0} (o : Option A) (e : LoadError) (a : A) → (or_error o e ≡ ok a) ↔ (o ≡ some a)
or_error-eq-ok_iff none e a = (λ h. cc, λ h. cc)
or_error-eq-ok_iff (some b) e a = (λ h. cc, λ h. cc)

or_panic_iff : {A : Type 0} (r : Result LoadError A) (a : A) → (or_panic r ≡ returns a) ↔ (r ≡ ok a)
or_panic_iff (ok b) a = (λ h. cc, λ h. cc)
or_panic_iff (err e) a = (λ h. cc, λ h. cc)

-- The rules read no checksum, no routes and no assets.
stamp-IsManifest :
    (pkg : Packages) (m : PluginManifest) (sum : String)
    → IsManifest pkg m
    → IsManifest pkg (record m { checksum = sum })
stamp-IsManifest pkg m sum h = record {
  has_plugin_id = h.has_plugin_id;
  has_version = h.has_version;
  presentation = h.presentation;
  capabilities = h.capabilities;
  paired = h.paired;
  global_config = h.global_config;
  user_config = h.user_config;
  capability_config = h.capability_config;
}

-- the version of a manifest that is loaded with a version
abbrev pub IsVersioned : String → PluginManifest → String → Type 0
IsVersioned given decoded v = ((given ≡ "") × (v ≡ decoded.version)) ⊎ ((given ≢ "") × (v ≡ given))

-- the sixteen digits, and the two digits of each byte, the high one first
abbrev digits : List String
digits =
    "0" ∷ "1" ∷ "2" ∷ "3" ∷ "4" ∷ "5" ∷ "6" ∷ "7" ∷ "8" ∷ "9" ∷ "a" ∷ "b" ∷ "c" ∷ "d" ∷ "e" ∷ "f"
    ∷ []

abbrev entry : ℕ → List String → String
entry n [] = ""
entry zero (s ∷ ss) = s
entry (suc n) (s ∷ ss) = entry n ss

abbrev pub hex_digits : Bytes → List String
hex_digits [] = []
hex_digits (b ∷ bs) = entry (b / 16) digits ∷ entry (b % 16) digits ∷ hex_digits bs

abbrev pub join : List String → String
join [] = ""
join (s ∷ ss) = append s (join ss)

hex_digit_lem : (n : ℕ) → hex_digit n ≡ entry n digits
hex_digit_lem zero = refl
hex_digit_lem (suc zero) = refl
hex_digit_lem (suc (suc zero)) = refl
hex_digit_lem (suc (suc (suc zero))) = refl
hex_digit_lem (suc (suc (suc (suc zero)))) = refl
hex_digit_lem (suc (suc (suc (suc (suc zero))))) = refl
hex_digit_lem (suc (suc (suc (suc (suc (suc zero)))))) = refl
hex_digit_lem (suc (suc (suc (suc (suc (suc (suc zero))))))) = refl
hex_digit_lem (suc (suc (suc (suc (suc (suc (suc (suc zero)))))))) = refl
hex_digit_lem (suc (suc (suc (suc (suc (suc (suc (suc (suc zero))))))))) = refl
hex_digit_lem (suc (suc (suc (suc (suc (suc (suc (suc (suc (suc zero)))))))))) = refl
hex_digit_lem (suc (suc (suc (suc (suc (suc (suc (suc (suc (suc (suc zero))))))))))) = refl
hex_digit_lem (suc (suc (suc (suc (suc (suc (suc (suc (suc (suc (suc (suc zero)))))))))))) = refl
hex_digit_lem (suc (suc (suc (suc (suc (suc (suc (suc (suc (suc (suc (suc (suc zero))))))))))))) =
    refl
hex_digit_lem
      (suc (suc (suc (suc (suc (suc (suc (suc (suc (suc (suc (suc (suc (suc zero)))))))))))))) =
    refl
hex_digit_lem
      (suc
        (suc (suc (suc (suc (suc (suc (suc (suc (suc (suc (suc (suc (suc (suc zero))))))))))))))) =
    refl
hex_digit_lem
      (suc (
        suc
          (suc (suc (suc (suc (suc (suc (suc (suc (suc (suc (suc (suc (suc (suc n)))))))))))))))) =
    refl

hex_encode_lem : (bs : Bytes) → hex_encode bs ≡ join (hex_digits bs)
unfolding hex_encode
hex_encode_lem [] = refl
hex_encode_lem (b ∷ bs) =
    rw (hex_digit_lem (b / 16), hex_digit_lem (b % 16), hex_encode_lem bs) refl

module _ (pkg : Packages) (sys : System) where
  version_rule :
      (version : String) (d : PluginManifest)
      → let w = with_version pkg sys version d in
        IsVersioned version d w.version × (w ≡ record d { version = w.version })
  version_rule version d = elim (Bool-cases (str_eq version "")) [
    | inl e ↦ rw e (inl ((eq_iff version "").0 e, refl), refl)
    | inr e ↦ rw e (inr ((named_iff version).0 e, refl), refl)
  ]

  versioned_unique :
      (version : String) (d : PluginManifest) (v : String)
      → IsVersioned version d v
      → with_version pkg sys version d ≡ record d { version = v }
  versioned_unique version d v (inl (e, f)) = rw (e, f) refl
  versioned_unique version d v (inr (n, f)) = rw ((named_iff version).1 n, f) refl

  -- `Load` returns exactly what the bytes decode to, if that is a well-formed manifest.
  pub load-eq-ok_iff :
      (bytes : Bytes) (m : PluginManifest)
      → (load pkg sys bytes ≡ ok m) ↔ ((sys.decode bytes ≡ some m) × IsManifest pkg m)
  unfolding load
  load-eq-ok_iff bytes m = (
    λ h.
        let (d, decoded, rest) = >>=-eq-ok _ _ m h in
        let (checked, same) = (>>-eq-ok_iff _ _ m).0 rest in
        let is_m : d ≡ m = cc same in
        let valid = (validate_iff pkg (some d)).0 ((wrap-eq-ok_iff invalid _ tt).0 checked) in
        (
          subst (λ x. sys.decode bytes ≡ some x) is_m ((or_error-eq-ok_iff _ _ d).0 decoded),
          subst (IsManifest pkg) is_m valid,
        ),
    λ h. rw (h.0, (validate_iff pkg (some m)).1 h.1),
  )

  -- `MustLoad` returns in the same case, and panics in every other.
  pub must_load-eq-returns_iff :
      (bytes : Bytes) (m : PluginManifest)
      → (must_load pkg sys bytes ≡ returns m) ↔ ((sys.decode bytes ≡ some m) × IsManifest pkg m)
  unfolding must_load
  must_load-eq-returns_iff bytes m =
      let (to, from) = load-eq-ok_iff bytes m in
      let same = or_panic_iff (load pkg sys bytes) m in (λ h. to (same.0 h), λ h. same.1 (from h))

  -- What the bytes decode to, in which only the version and the checksum may differ: the version is
  -- the given one, unless that is empty, and the checksum is the digest of the running binary in
  -- hexadecimal.
  pub record IsStamped (embedded : Bytes) (version : String) (m : PluginManifest) : Type 0 where
    pub decoded : PluginManifest
    pub decodes : sys.decode embedded ≡ some decoded
    pub exe : String
    pub executable : sys.executable ≡ some exe
    pub binary : Bytes
    pub read : sys.read_file exe ≡ some binary
    pub versioned : IsVersioned version decoded m.version
    pub summed : m.checksum ≡ join (hex_digits (sys.sha256 binary))
    pub others : m ≡ record decoded { version = m.version; checksum = m.checksum }
    pub well_formed : IsManifest pkg m

  stamp_version :
      (embedded : Bytes) (version : String) (m : PluginManifest) (h : IsStamped embedded version m)
      → with_version pkg sys version h.decoded ≡ record m { checksum = h.decoded.checksum }
  stamp_version embedded version m h =
      versioned_unique version h.decoded m.version h.versioned
      ∙ sym (ap (λ (x : PluginManifest). record x { checksum = h.decoded.checksum }) h.others)

  -- LoadWithChecksum returns a manifest exactly when the bytes decode, the running binary can be
  -- read, and the manifest is well formed and differs from what the bytes decode to in the version
  -- alone, which is the given one unless that is empty, and in the checksum, which is the
  -- hexadecimal digest of the binary.
  pub load_with_checksum-eq-ok_iff :
      (embedded : Bytes) (version : String) (m : PluginManifest)
      → (load_with_checksum pkg sys embedded version ≡ ok m) ↔ IsStamped embedded version m
  unfolding load_with_checksum
  load_with_checksum-eq-ok_iff embedded version m = (
    λ h.
        let (d, decoded, h1) = >>=-eq-ok _ _ m h in
        let (checked, h2) = (>>-eq-ok_iff _ _ m).0 h1 in
        let (exe, found, h3) = >>=-eq-ok _ _ m h2 in
        let (binary, read, same) = >>=-eq-ok _ _ m h3 in
        let w = with_version pkg sys version d in
        let (versioned, others) = version_rule version d in
        let stamped : IsStamped embedded version
            (record w { checksum = hex_encode (sys.sha256 binary) }) =
          record {
            decoded = d;
            decodes = (or_error-eq-ok_iff _ _ d).0 decoded;
            exe = exe;
            executable = (or_error-eq-ok_iff _ _ exe).0 found;
            binary = binary;
            read = (or_error-eq-ok_iff _ _ binary).0 read;
            versioned = versioned;
            summed = hex_encode_lem (sys.sha256 binary);
            others =
                ap (λ (x : PluginManifest). record x { checksum = hex_encode (sys.sha256 binary) })
                  others;
            well_formed =
                stamp-IsManifest pkg w _
                  ((validate_iff pkg (some w)).0 ((wrap-eq-ok_iff invalid _ tt).0 checked));
          } in
        subst (IsStamped embedded version) (cc same) stamped,
    λ h.
        let e = stamp_version embedded version m h in
        let valid =
          subst (IsManifest pkg) (sym e)
            (stamp-IsManifest pkg m h.decoded.checksum h.well_formed) in
        rw
          (
            h.decodes,
            (validate_iff pkg (some (with_version pkg sys version h.decoded))).1 valid,
            h.executable,
            h.read,
          )
          (ap ok (
            ap (λ (x : PluginManifest). record x { checksum = hex_encode (sys.sha256 h.binary) }) e
            ∙ ap (λ sum. record m { checksum = sum })
                (hex_encode_lem (sys.sha256 h.binary) ∙ sym h.summed))),
  )

  -- Stamping a checksum does not disturb a well-formed manifest, so what is returned is one too.
  pub load_with_checksum-IsManifest :
      (embedded : Bytes) (version : String) (m : PluginManifest)
      → load_with_checksum pkg sys embedded version ≡ ok m
      → IsManifest pkg m
  load_with_checksum-IsManifest embedded version m h =
      ((load_with_checksum-eq-ok_iff embedded version m).0 h).well_formed

-- Two guarded steps with the same guard are one.
guard_twice :
    {E A : Type 0} (r : Result E (Unit {0})) (k : A → Result E A) (x y : A)
    → k x ≡ (r >> ok y)
    → ((r >> ok x) >>= k) ≡ (r >> ok y)
guard_twice (ok tt) k x y h = h
guard_twice (err e) k x y h = refl

module _ (pkg : Packages) (m : PluginManifest) where
  -- Routes are appended exactly to a well-formed manifest, and nothing else of it changes.
  pub register_http_routes-eq-ok_iff :
      (routes : List (Option HttpRouteDescriptor)) (m' : PluginManifest)
      → (register_http_routes pkg (some m) routes ≡ ok m')
        ↔ (IsManifest pkg m × (m' ≡ record m { http_routes = m.http_routes ++ routes }))
  unfolding register_http_routes
  register_http_routes-eq-ok_iff routes m' = (
    λ h.
        let (checked, same) = (>>-eq-ok_iff _ _ m').0 h in
        ((validate_iff pkg (some m)).0 checked, cc (sym same)),
    λ h. rw ((validate_iff pkg (some m)).1 h.0) (ap ok (sym h.1)),
  )

  -- Registering routes in two calls gives what one call with all of them gives, the failure of an
  -- invalid manifest included.
  pub register_http_routes-append :
      (first second : List (Option HttpRouteDescriptor))
      → (register_http_routes pkg (some m) first >>= λ m'.
          register_http_routes pkg (some m') second)
        ≡ register_http_routes pkg (some m) (first ++ second)
  unfolding register_http_routes
  register_http_routes-append first second =
      guard_twice (check_manifest pkg m) (λ m'. register_http_routes pkg (some m') second)
        (record m { http_routes = m.http_routes ++ first })
        (record m { http_routes = m.http_routes ++ (first ++ second) }) (rw append_assoc)

  -- Registering assets in two calls gives what one call with all of them gives, the failure of an
  -- invalid manifest included.
  pub register_assets-append :
      (first second : List (Option PackagedAsset))
      → (register_assets pkg (some m) first >>= λ m'. register_assets pkg (some m') second)
        ≡ register_assets pkg (some m) (first ++ second)
  unfolding register_assets
  register_assets-append first second =
      guard_twice (check_manifest pkg m) (λ m'. register_assets pkg (some m') second)
        (record m { assets = m.assets ++ first })
        (record m { assets = m.assets ++ (first ++ second) }) (rw append_assoc)
