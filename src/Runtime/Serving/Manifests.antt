-- ===== src/Runtime/Serving/Manifests.antt =====
-- ServeManifestWithOptions as a whole: from the embedded bytes to the configuration served.
use bloem_plugin_sdk.Base.{String, Option, List, ok, >>=-eq-ok, wrap-eq-ok_iff, ◌≡◌, refl, ◌↔◌, In}
use bloem_plugin_sdk.Messages.{PluginManifest, CapabilityDescriptor, deref}
use bloem_plugin_sdk.Manifest.Packages.{Packages}
use bloem_plugin_sdk.Manifest.Loading.{Bytes, System}
use bloem_plugin_sdk.Manifest.Loading.Laws.{IsStamped, load_with_checksum-eq-ok_iff}
use bloem_plugin_sdk.Runtime.Servers.{CapabilityServers}
use bloem_plugin_sdk.Runtime.Serving.{
  ServeManifestOption, ServeConfig, no_options, apply_options, serve_manifest_with_options,
}
use bloem_plugin_sdk.Runtime.Serving.Startup.{IsServed, config_of, manifest_serve_config-eq-ok_iff}

module _ (pkg : Packages) (sys : System) (bytes : Bytes) (version : String) (s : CapabilityServers)
    (options : List (Option ServeManifestOption)) where
  -- What is served: a manifest that the embedded bytes decode to, well formed and stamped, whose
  -- capabilities have the auth services they declare, under the default Runtime server.
  pub record IsServedManifest (cfg : ServeConfig) : Type 0 where
    pub manifest : PluginManifest
    pub stamped : IsStamped pkg sys bytes version manifest
    pub served :
        (d : Option CapabilityDescriptor)
        → In d manifest.capabilities
        → IsServed s (apply_options options no_options) (deref d)
    pub configured : config_of manifest s options ≡ cfg

  -- ServeManifestWithOptions reaches Serve, with the configuration `cfg`, exactly when the embedded
  -- bytes decode to a manifest that is well formed with the given version, the running binary can
  -- be read for its checksum, every capability has the auth services it declares, and `cfg` serves
  -- the stamped manifest. In every other case it panics.
  pub serve_manifest_with_options-eq-ok_iff :
      (cfg : ServeConfig)
      → (serve_manifest_with_options pkg sys bytes version s options ≡ ok cfg)
        ↔ IsServedManifest cfg
  unfolding serve_manifest_with_options
  serve_manifest_with_options-eq-ok_iff cfg = (
    λ h.
        let (m, loaded, rest) = >>=-eq-ok _ _ cfg h in
        let (each, same) =
          (manifest_serve_config-eq-ok_iff m s options cfg).0 ((wrap-eq-ok_iff _ _ cfg).0 rest) in
        record {
          manifest = m;
          stamped =
              (load_with_checksum-eq-ok_iff pkg sys bytes version m).0
                ((wrap-eq-ok_iff _ _ m).0 loaded);
          served = each;
          configured = same;
        },
    λ h.
        rw
          (
            (load_with_checksum-eq-ok_iff pkg sys bytes version h.manifest).1 h.stamped,
            (manifest_serve_config-eq-ok_iff h.manifest s options cfg).1 (h.served, h.configured),
          )
          refl,
  )
