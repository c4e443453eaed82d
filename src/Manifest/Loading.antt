-- ===== src/Manifest/Loading.antt =====
-- Load, MustLoad, LoadFromDisk, LoadWithChecksum, and the registration of routes and assets.
pub mod Laws
use Prim.Native.String.{◌++◌ as append}
use bloem_plugin_sdk.Base.{
  ℕ, ◌/◌, ◌%◌, String, Bool, Option, none, some, List, [], ◌∷◌, ◌++◌, map, str_eq, not, Result, ok,
  err, ◌>>=◌, ◌>>◌, wrap, if◌then◌else◌, zero, suc,
}
use bloem_plugin_sdk.Messages.{PluginManifest, HttpRouteDescriptor, PackagedAsset}
use bloem_plugin_sdk.Manifest.Packages.{Packages}
use bloem_plugin_sdk.Manifest.Validation.{ManifestError, manifest_required, validate}

abbrev pub Bytes : Type 0
Bytes = List ℕ

-- What loading takes from outside the repository: protojson's decoder with unknown fields
-- discarded, the file system, the path of the running binary and SHA-256.
pub record System : Type 0 where
  pub decode : Bytes → Option PluginManifest
  pub read_file : String → Option Bytes
  pub executable : Option String
  pub sha256 : Bytes → Bytes

pub data LoadError : Type 0 where
  cannot_decode no_executable : LoadError
  invalid : ManifestError → LoadError
  cannot_read : String → LoadError
  in_file : String → LoadError → LoadError

-- A call that returns or panics.
pub data Outcome (A : Type 0) : Type 0 where
  returns : A → Outcome A
  panics : LoadError → Outcome A

abbrev pub or_error {ℓ} : {A : Type ℓ} → Option A → LoadError → Result LoadError A
or_error none e = err e
or_error (some a) e = ok a

-- `if err != nil { panic(err) }`
abbrev pub or_panic : {A : Type 0} → Result LoadError A → Outcome A
or_panic (ok a) = returns a
or_panic (err e) = panics e

-- `hex.EncodeToString`
abbrev pub digit_at : ℕ → String → String
digit_at n String.[] = ""
digit_at zero (String.◌∷◌ c s) = String.◌∷◌ c ""
digit_at (suc n) (String.◌∷◌ c s) = digit_at n s

abbrev pub hex_digit : ℕ → String
hex_digit n = digit_at n "0123456789abcdef"

unfoldable pub hex_encode : Bytes → String
hex_encode [] = ""
hex_encode (b ∷ bs) = append (hex_digit (b / 16)) (append (hex_digit (b % 16)) (hex_encode bs))

module _ (pkg : Packages) (sys : System) where
  -- `Load`
  unfoldable pub load : Bytes → Result LoadError PluginManifest
  unfolding validate
  load bytes = do
    m ← or_error (sys.decode bytes) cannot_decode
    wrap invalid (validate pkg (some m))
    ok m

  -- `MustLoad`
  unfoldable pub must_load : Bytes → Outcome PluginManifest
  unfolding load
  must_load bytes = or_panic (load bytes)

  -- `LoadFromDisk`
  unfoldable pub load_from_disk : String → Result LoadError PluginManifest
  unfolding load
  load_from_disk path = do
    bytes ← or_error (sys.read_file path) (cannot_read path)
    wrap (in_file path) (load bytes)

  -- The manifest with its version replaced, unless the version is empty.
  abbrev pub with_version : String → PluginManifest → PluginManifest
  with_version version m = if not (str_eq version "") then record m { version = version } else m

  -- `LoadWithChecksum`
  unfoldable pub load_with_checksum : Bytes → String → Result LoadError PluginManifest
  unfolding validate hex_encode
  load_with_checksum embedded version = do
    decoded ← or_error (sys.decode embedded) cannot_decode
    let m = with_version version decoded
    wrap invalid (validate pkg (some m))
    exe ← or_error sys.executable no_executable
    bytes ← or_error (sys.read_file exe) (cannot_read exe)
    ok (record m { checksum = hex_encode (sys.sha256 bytes) })

module _ (pkg : Packages) where
  -- `RegisterHTTPRoutes` and `RegisterAssets`, which change the manifest in place; the result is the
  -- manifest after a successful call, and a failed one changes nothing.
  unfoldable pub register_http_routes :
      Option PluginManifest
      → List (Option HttpRouteDescriptor)
      → Result ManifestError PluginManifest
  unfolding validate
  register_http_routes none routes = err manifest_required
  register_http_routes (some m) routes = do
    validate pkg (some m)
    ok (record m { http_routes = m.http_routes ++ routes })

  unfoldable pub register_assets :
      Option PluginManifest → List (Option PackagedAsset) → Result ManifestError PluginManifest
  unfolding validate
  register_assets none assets = err manifest_required
  register_assets (some m) assets = do
    validate pkg (some m)
    ok (record m { assets = m.assets ++ assets })

-- `Asset`, where `stat` is the error of `fs.Stat` on the path
unfoldable pub asset : (String → Option LoadError) → String → Result LoadError PackagedAsset
asset stat path = elim (stat path) [
  | some e ↦ err (in_file path e)
  | none ↦ ok (record { path = path; content_type = ""; integrity = "" })
]
