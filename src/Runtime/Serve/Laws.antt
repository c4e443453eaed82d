-- ===== src/Runtime/Serve/Laws.antt =====
-- What a plugin that ServeManifest starts prints as its manifest.
use bloem_plugin_sdk.Base.{
  ℕ, String, Option, some, List, true, Result, ok, err, >>=-eq-ok, ◌≡◌, ◌↔◌, sym, ap, ◌∙◌,
}
use bloem_plugin_sdk.Messages.{PluginManifest}
use bloem_plugin_sdk.Manifest.Packages.{Packages}
use bloem_plugin_sdk.Manifest.Loading.{Bytes, System}
use bloem_plugin_sdk.Runtime.Servers.{CapabilityServers}
use bloem_plugin_sdk.Runtime.Serving.{ServeManifestOption, ServeConfig, serve_manifest_with_options}
use bloem_plugin_sdk.Runtime.Serving.Manifests.{
  IsServedManifest, serve_manifest_with_options-eq-ok_iff,
}
use bloem_plugin_sdk.Runtime.Serve.{
  prints, is_manifest_command, print_json, print_manifest, serve, serve_manifest,
}

module _ {J E : Type 0} (marshal : Option PluginManifest → Result J Bytes)
    (own_manifest : ℕ → Result E (Option PluginManifest)) (pkg : Packages) (sys : System)
    (bytes : Bytes) (version : String) (servers : CapabilityServers)
    (options : List (Option ServeManifestOption)) where
  print_json-eq-prints_iff :
      (r : Result J Bytes) (json : Bytes)
      → (print_json marshal own_manifest r ≡ prints json) ↔ (r ≡ ok json)
  print_json-eq-prints_iff (ok j) json = (λ h. cc h, λ h. cc h)
  print_json-eq-prints_iff (err e) json = (λ h. absurd (cc h), λ h. absurd (cc h))

  -- What Serve does with the configuration of a served manifest.
  serve-of_served :
      (args : List String) (cfg : ServeConfig)
      → is_manifest_command args ≡ true
      → (served : IsServedManifest pkg sys bytes version servers options cfg)
      → serve marshal own_manifest args cfg
        ≡ print_json marshal own_manifest (marshal (some served.manifest))
  unfolding serve
  serve-of_served args cfg h served = rw h (
      sym (
        ap (λ (c : ServeConfig). print_manifest marshal own_manifest c.servers.runtime)
          served.configured))

  -- Called with the argument "manifest", a plugin that ServeManifestWithOptions starts prints a JSON
  -- text exactly if it is the JSON of the manifest that the plugin would serve: what the embedded
  -- bytes decode to, well formed, stamped with the version and the binary's checksum, and with the
  -- auth services that its capabilities declare.
  pub serve_manifest-prints_iff :
      (args : List String) (json : Bytes)
      → is_manifest_command args ≡ true
      → (serve_manifest marshal own_manifest pkg sys args bytes version servers options
          ≡ ok (prints json))
        ↔ ((cfg : ServeConfig) × (served : IsServedManifest pkg sys bytes version servers options
              cfg)
            × (marshal (some served.manifest) ≡ ok json))
  unfolding serve_manifest
  serve_manifest-prints_iff args json h = (
    λ k.
        let (cfg, started, e) =
          >>=-eq-ok (serve_manifest_with_options pkg sys bytes version servers options) _
            (prints json) k in
        let served =
          (serve_manifest_with_options-eq-ok_iff pkg sys bytes version servers options cfg).0
            started in
        let printed : serve marshal own_manifest args cfg ≡ prints json = cc e in
        (
          cfg,
          served,
          (print_json-eq-prints_iff _ json).0 (sym (serve-of_served args cfg h served) ∙ printed),
        ),
    λ (cfg, served, e).
        let started =
          (serve_manifest_with_options-eq-ok_iff pkg sys bytes version servers options cfg).1
            served in
        rw started
          (ap ok (serve-of_served args cfg h served ∙ (print_json-eq-prints_iff _ json).1 e)),
  )
