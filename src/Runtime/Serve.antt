-- ===== src/Runtime/Serve.antt =====
-- Serve of runtime.go, and with it ServeManifest as a whole. Serve does not return: it prints the
-- manifest and exits, exits with an error, or hands a plugin set over to go-plugin. protojson and the
-- GetManifest of a plugin's own Runtime server are parameters.
pub mod Laws
use bloem_plugin_sdk.Base.{
  ℕ, String, Bool, true, false, Option, none, some, List, [], ◌∷◌, str_eq, is_empty, if◌then◌else◌,
  Result, ok, err, ◌>>=◌,
}
use bloem_plugin_sdk.Messages.{PluginManifest}
use bloem_plugin_sdk.Manifest.Packages.{Packages}
use bloem_plugin_sdk.Manifest.Loading.{Bytes, System}
use bloem_plugin_sdk.Runtime.Servers.{
  Server, own, manifest_runtime, CapabilityServers, PluginSet, default_plugin_set,
}
use bloem_plugin_sdk.Runtime.Serving.{
  ServeManifestOption, ServeConfig, ServeError, serve_manifest_with_options,
}

-- How Serve ends: the manifest as JSON on the standard output and status 0, a message and status 1,
-- or the plugins that go-plugin serves.
pub data ServeEnd (J E : Type 0) : Type 0 where
  prints : Bytes → ServeEnd J E
  runtime_required : ServeEnd J E
  no_manifest : E → ServeEnd J E
  manifest_not_encoded : J → ServeEnd J E
  serves : PluginSet → ServeEnd J E

-- the first argument is "manifest"
abbrev pub is_manifest_command : List String → Bool
is_manifest_command (program ∷ argument ∷ rest) = str_eq argument "manifest"
is_manifest_command _ = false

module _ {J E : Type 0} (marshal : Option PluginManifest → Result J Bytes)
    (own_manifest : ℕ → Result E (Option PluginManifest)) where
  -- `GetManifest` of a Runtime server
  abbrev pub get_manifest : Server → Result E (Option PluginManifest)
  get_manifest (own id nil checks network) = own_manifest id
  get_manifest (manifest_runtime m configure) = ok (some m)

  abbrev pub print_json : Result J Bytes → ServeEnd J E
  print_json (ok json) = prints json
  print_json (err e) = manifest_not_encoded e

  abbrev pub print_answer : Result E (Option PluginManifest) → ServeEnd J E
  print_answer (ok m) = print_json (marshal m)
  print_answer (err e) = no_manifest e

  abbrev pub print_manifest : Option Server → ServeEnd J E
  print_manifest none = runtime_required
  print_manifest (some server) = print_answer (get_manifest server)

  -- `Serve`
  unfoldable pub serve : List String → ServeConfig → ServeEnd J E
  serve args cfg =
      if is_manifest_command args
      then print_manifest cfg.servers.runtime
      else serves (if is_empty cfg.plugins then default_plugin_set cfg.servers else cfg.plugins)

  -- `ServeManifest` and `ServeManifestWithOptions`, which may panic before Serve
  unfoldable pub serve_manifest :
      Packages
      → System
      → List String
      → Bytes
      → String
      → CapabilityServers
      → List (Option ServeManifestOption)
      → Result ServeError (ServeEnd J E)
  unfolding serve
  serve_manifest pkg sys args bytes version servers options =
      serve_manifest_with_options pkg sys bytes version servers options >>= λ cfg.
      ok (serve args cfg)
