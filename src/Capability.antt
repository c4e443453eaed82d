-- ===== src/Capability.antt =====
-- pkg/pluginsdk/capability: the stable capability type strings.
use bloem_plugin_sdk.Base.{String, List, [], ◌∷◌}

abbrev pub event_consumer : String
event_consumer = "event_consumer.v1"

abbrev pub http_routes : String
http_routes = "http_routes.v1"

abbrev pub scheduled_task : String
scheduled_task = "scheduled_task.v1"

abbrev pub request_router : String
request_router = "request_router.v1"

abbrev pub media_analyzer : String
media_analyzer = "media_analyzer.v1"

abbrev pub auth_provider : String
auth_provider = "auth_provider.v1"

abbrev pub metadata_provider : String
metadata_provider = "metadata_provider.v1"

abbrev pub image_resolver : String
image_resolver = "image_resolver.v1"

abbrev pub marker_provider : String
marker_provider = "marker_provider.v1"

abbrev pub audiobook_backend : String
audiobook_backend = "audiobook_backend.v1"

abbrev pub ebook_backend : String
ebook_backend = "ebook_backend.v1"

abbrev pub scan_source : String
scan_source = "scan_source.v1"

abbrev pub watch_sync_provider : String
watch_sync_provider = "watch_sync_provider.v1"

abbrev pub network_access_provider : String
network_access_provider = "network_access_provider.v1"

abbrev pub known_types : List String
known_types =
    event_consumer ∷ http_routes ∷ scheduled_task ∷ request_router ∷ media_analyzer ∷ auth_provider
    ∷ metadata_provider ∷ image_resolver ∷ marker_provider ∷ audiobook_backend ∷ ebook_backend
    ∷ scan_source ∷ watch_sync_provider ∷ network_access_provider ∷ []
