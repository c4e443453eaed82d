-- ===== src/Examples/Startup.antt =====
-- loadManifest of examples/hello-scheduled-task/main.go, which hello-runtime-host and
-- hello-scan-source repeat word for word: the embedded manifest, with the checksum of the running
-- binary and, if it names no platform, the present one.
use bloem_plugin_sdk.Base.{
  String, ◌≡◌, refl, ◌≢◌, ◌⊎◌, inl, inr, sym, subst, List, Option, none, some, [], ◌∷◌, is_empty,
  Result, ok, err, ◌>>=◌, wrap, if◌then◌else◌, ◌>>◌,
}
use bloem_plugin_sdk.Messages.{PluginManifest, SupportedPlatform}
use bloem_plugin_sdk.Manifest.Packages.{Packages}
use bloem_plugin_sdk.Manifest.Validation.{ManifestError, validate}
use bloem_plugin_sdk.Manifest.Loading.{
  Bytes, System, LoadError, or_error, hex_encode, load, load_with_checksum, cannot_decode, invalid,
  no_executable, cannot_read,
}

pub data StartError : Type 0 where
  embedded_manifest : LoadError → StartError
  no_executable_path : StartError
  binary_not_read : String → StartError

abbrev pub or_start_error : {A : Type 0} → Option A → StartError → Result StartError A
or_start_error none e = err e
or_start_error (some a) e = ok a

-- `GOOS` and `GOARCH`, if no platform is named
abbrev pub with_platform : SupportedPlatform → PluginManifest → PluginManifest
with_platform here m =
    if is_empty m.supported_platforms then record m { supported_platforms = here ∷ [] } else m

module _ (pkg : Packages) (sys : System) where
  -- `loadManifest`
  unfoldable pub load_manifest : SupportedPlatform → Bytes → Result StartError PluginManifest
  unfolding load hex_encode
  load_manifest here embedded = do
    m ← wrap embedded_manifest (load pkg sys embedded)
    exe ← or_start_error sys.executable no_executable_path
    binary ← or_start_error (sys.read_file exe) (binary_not_read exe)
    ok (with_platform here (record m { checksum = hex_encode (sys.sha256 binary) }))

  -- The errors of LoadWithChecksum, as loadManifest words them.
  abbrev pub start_error : LoadError → StartError
  start_error LoadError.no_executable = no_executable_path
  start_error (LoadError.cannot_read path) = binary_not_read path
  start_error e = embedded_manifest e

  module _ (here : SupportedPlatform) where
    -- From a manifest that has been decoded, checked and whose binary has been read, on.
    abbrev stamped : PluginManifest → Bytes → PluginManifest
    stamped m binary = record m { checksum = hex_encode (sys.sha256 binary) }

    read_binary :
        (m : PluginManifest) (exe : String) (o : Option Bytes)
        → (or_start_error o (binary_not_read exe) >>= λ binary.
            ok (with_platform here (stamped m binary)))
          ≡ (wrap start_error (or_error o (cannot_read exe) >>= λ binary. ok (stamped m binary))
              >>= λ m'. ok (with_platform here m'))
    read_binary m exe none = refl
    read_binary m exe (some binary) = refl

    find_binary :
        (m : PluginManifest) (o : Option String)
        → (or_start_error o no_executable_path >>= λ exe.
            or_start_error (sys.read_file exe) (binary_not_read exe) >>= λ binary.
            ok (with_platform here (stamped m binary)))
          ≡ (wrap start_error (
                or_error o no_executable >>= λ exe.
                or_error (sys.read_file exe) (cannot_read exe) >>= λ binary. ok (stamped m binary))
              >>= λ m'. ok (with_platform here m'))
    find_binary m none = refl
    find_binary m (some exe) = read_binary m exe (sys.read_file exe)

    check_loaded :
        (m : PluginManifest) (checked : Result ManifestError (Unit {0}))
        → (wrap embedded_manifest (wrap invalid checked >> ok m) >>= λ m.
            or_start_error sys.executable no_executable_path >>= λ exe.
            or_start_error (sys.read_file exe) (binary_not_read exe) >>= λ binary.
            ok (with_platform here (stamped m binary)))
          ≡ (wrap start_error (
                wrap invalid checked
                >> (or_error sys.executable no_executable >>= λ exe.
                    or_error (sys.read_file exe) (cannot_read exe) >>= λ binary.
                    ok (stamped m binary)))
              >>= λ m'. ok (with_platform here m'))
    check_loaded m (err e) = refl
    check_loaded m (ok u) = find_binary m sys.executable

    decode_loaded :
        (o : Option PluginManifest)
        → (wrap embedded_manifest
              (or_error o cannot_decode >>= λ m. wrap invalid (validate pkg (some m)) >> ok m)
            >>= λ m. or_start_error sys.executable no_executable_path >>= λ exe.
                or_start_error (sys.read_file exe) (binary_not_read exe) >>= λ binary.
                ok (with_platform here (stamped m binary)))
          ≡ (wrap start_error (
                or_error o cannot_decode >>= λ m.
                wrap invalid (validate pkg (some m))
                >> (or_error sys.executable no_executable >>= λ exe.
                    or_error (sys.read_file exe) (cannot_read exe) >>= λ binary.
                    ok (stamped m binary)))
              >>= λ m'. ok (with_platform here m'))
    decode_loaded none = refl
    decode_loaded (some m) = check_loaded m (validate pkg (some m))

  load_manifest_lem :
      (here : SupportedPlatform) (embedded : Bytes)
      → load_manifest here embedded ≡ (
          wrap start_error (load_with_checksum pkg sys embedded "") >>= λ m.
          ok (with_platform here m))
  unfolding load_manifest load_with_checksum
  load_manifest_lem here embedded = decode_loaded here (sys.decode embedded)

  -- what loadManifest returns beside what LoadWithChecksum returns
  abbrev pub IsSameStart :
      SupportedPlatform
      → Result StartError PluginManifest
      → Result LoadError PluginManifest
      → Type 0
  IsSameStart here (ok m') (ok m) =
      ((m.supported_platforms ≡ []) × (m' ≡ record m { supported_platforms = here ∷ [] }))
      ⊎ ((m.supported_platforms ≢ []) × (m' ≡ m))
  IsSameStart here (err e') (err e) = e' ≡ start_error e
  IsSameStart here _ _ = ⊥

  platform_rule :
      (here : SupportedPlatform) (ps : List SupportedPlatform) (m : PluginManifest)
      → m.supported_platforms ≡ ps
      → IsSameStart here (ok (with_platform here m)) (ok m)
  platform_rule here [] m e = rw e (inl (refl, refl))
  platform_rule here (p ∷ ps) m e = rw e (inr (λ h. absurd (cc h), refl))

  same_start :
      (here : SupportedPlatform) (r : Result LoadError PluginManifest)
      → IsSameStart here (wrap start_error r >>= λ m. ok (with_platform here m)) r
  same_start here (err e) = refl
  same_start here (ok m) = platform_rule here m.supported_platforms m refl

  -- loadManifest fails exactly when LoadWithChecksum without a version does, with the error of the
  -- same cause; and otherwise it returns the same manifest, in which the platform of the process is
  -- the only platform if that manifest names none, and nothing is changed if it names one.
  pub load_manifest-load_with_checksum :
      (here : SupportedPlatform) (embedded : Bytes)
      → IsSameStart here (load_manifest here embedded) (load_with_checksum pkg sys embedded "")
  load_manifest-load_with_checksum here embedded =
      subst (λ r. IsSameStart here r (load_with_checksum pkg sys embedded ""))
        (sym (load_manifest_lem here embedded))
        (same_start here (load_with_checksum pkg sys embedded ""))
