-- ===== src/Lib.antt =====
-- The plugin SDK for Go: what a plugin's manifest must satisfy, how a plugin loads and stamps it,
-- which services its process registers with the host, how it keeps its one connection to the host
-- and what it asks of it, and the example plugins of the repository.
--
-- The parts, and where each stands:
--   Base, Text, Values           Go's results, lists, maps and strings, and protobuf values
--   Capability                   pkg/pluginsdk/capability/capability.go
--   Messages                     the structs of pkg/pluginproto/silo/plugin/v1 that the code reads
--   Manifest/Presentation        validatePresentation, validatePresentationURL, equalCanonicalURL
--   Manifest/WatchSync           validateWatchSyncCapability, validateWatchSyncConnectionSettings
--   Manifest/NetworkAccess       validateNetworkAccessCapability
--   Manifest/RequestRouter       ValidateRequestRouterWording and the capability's check
--   Manifest/Auth                validateAuthProviderCapability, validateNetworkAuthPairing
--   Manifest/ConfigForm          validateConfigSchema
--   Manifest/Validation          Validate, ValidateCatalogPresentation
--   Manifest/Loading             Load, MustLoad, LoadFromDisk, LoadWithChecksum, the registrations
--                                (all of pkg/pluginsdk/manifest)
--   Config                       pkg/pluginsdk/config/config.go
--   Convert                      pkg/pluginsdk/convert/convert.go
--   HttpClient                   pkg/pluginsdk/httpclient/httpclient.go
--   Runtime/Host                 pluginHostState of pkg/pluginsdk/runtime/runtime.go
--   Runtime/Servers              CapabilityServers, the plugin sets and GRPCServer
--   Runtime/Serving              pkg/pluginsdk/runtime/serve_manifest.go and storage_provider.go
--   Runtime/Serve                Serve, and ServeManifest as a whole
--   Runtime/Clients              the host's side of runtime.go: Client and its typed clients
--   Runtime/Default              pkg/pluginsdk/runtimedefault/runtime.go
--   RuntimeHost/InstanceState    pkg/pluginsdk/runtimehost/instance_state.go
--   RuntimeHost/Discovery        pkg/pluginsdk/runtimehost/discovery.go
--   RuntimeHost/HostInfo         host_info.go and network_access.go of pkg/pluginsdk/runtimehost
--   RuntimeHost/PluginCalls      CallPluginHTTP of client.go, and call_json.go (same directory)
--   RuntimeHost/Events           PublishEvent, PublishEventTo, CheckMediaPresence and events.go
--   RuntimeHost/Streams          MintScopedStream, ListLibraries, ListInstalledPlugins and
--                                SetGlobalConfigEntry of client.go
--   RuntimeHost/Catalog          ListLibraryMedia; GetCatalogStats and ResolveCatalogImageURLs in
--                                Catalog/Stats
--   Examples/Startup             loadManifest of examples/hello-scheduled-task/main.go, which two other
--                                examples repeat
--   Examples/Ping                Run of examples/hello-runtime-host/main.go
--   Examples/ScanSource          examples/hello-scan-source/main.go
--   Examples/NetworkAccess       examples/hello-network-access/main.go
--   Examples/Storage             Describe and Stat of examples/hello-storage/provider.go; List in
--                                Storage/Listing, Read in Storage/Reading
-- The children Laws, Modes, Settings, Fields, Registered, Manifests, Coding, Stored, Whole, Body,
-- Lines, Polls, Sequences, Markers, Intent, Entries, Pages, Chunks, Sent, Table and Json, Catalog
-- of Manifest/Validation and Startup of Runtime/Serving hold the predicates and the proofs, and
-- Tests holds concrete runs, those of Convert with the small protojson of Convert/Sample.
--
-- ServeManifestWithOptions loads the embedded bytes with LoadWithChecksum, which validates; it then
-- resolves the options, checks the auth services that the capabilities declare and serves a plugin
-- set. Its plugin's GRPCServer sets the broker of the host state and registers the services; the
-- host's BindHostBroker call then binds the stream that Host dials. Serve either prints the manifest
-- or hands the plugin set over, and the host's typed clients call the services registered. A host
-- keeps a manifest's capabilities as the records that Convert makes, and checks configuration values
-- against the manifest's schemas with Config.
--
-- A pointer is an Option, an error is a Result with a data type of the messages, and a panic is an
-- error of the call that panics. Strings are valid UTF-8: a rune is a code point, and `len` counts
-- bytes. Enum values are the int32 values of the generated code. A float64 is its bits. Every loop
-- is structural recursion over its list, but for the loop of the storage fixture's Read: its fuel is
-- the length of the range, and each round goes at least one byte on.
--
-- Where a text holds numbers or what another program wrote (markers, the lines of a change log, the
-- bodies of HTTP responses), it is the list of its bytes. Offsets and sizes stay below 2^63. A poll
-- of a change log is given what each of its system calls finds, since the log may grow between
-- them.
--
-- Parameters, since their code is elsewhere: url.Parse, json.Unmarshal, Unicode's simple folding and
-- Value.AsInterface (the record Packages); protojson, the file system, os.Executable and SHA-256
-- (the record System); the Dial of go-plugin's broker, which may answer differently at each attempt;
-- the host behind the RuntimeHost service (the records StateHost and AccessHost, and a function for
-- each other call); structpb.NewStruct and encoding/json for the calls of other plugins and the
-- events; the ebook of the storage fixture and the Sends on its streams; the portions in which a
-- file's Read fills its buffer. The gRPC server is the sequence of the registrations it has received.
--
-- For Convert, protojson and structpb have the laws of AreCodecs, on the messages of Convert/Whole; in
-- HttpClient, net/http and the decoder of a body, which may read any part of it; in Config, the JSON
-- Schema compiler; in Runtime/Serve, the arguments and protojson.
--
-- Not modelled: marshalling and stubs of the generated code; go-plugin behind Serve; contexts,
-- timeouts and logging; imagevariant, which is five constants; the mains of the examples, which pass
-- values to Serve; the compatibility probe, which prints module paths; the scripts.
pub mod Base
pub mod Capability
pub mod Config
pub mod Convert
pub mod Examples
pub mod HttpClient
pub mod Manifest
pub mod Messages
pub mod Runtime
pub mod RuntimeHost
pub mod Text
pub mod Values
