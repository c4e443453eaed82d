-- ===== src/Runtime/Clients.antt =====
-- The host's side of runtime.go: the client that go-plugin dispenses, and its typed clients. A typed
-- client is the name of the service that it calls, and the connection that it calls it on.
pub mod Laws
use bloem_plugin_sdk.Base.{String, Option, none}
use bloem_plugin_sdk.Runtime.Servers.{device_service, checks_service, network_service}

pub record Client (Conn Broker : Type 0) : Type 0 where
  pub conn : Conn
  pub broker : Option Broker

pub record TypedClient (Conn : Type 0) : Type 0 where
  pub service : String
  pub conn : Conn

module _ {Conn Broker : Type 0} where
  -- `NewClient`, and `GRPCClient` of a plugin
  abbrev pub new_client : Conn → Client Conn Broker
  new_client conn = record { conn = conn; broker = none }

  abbrev pub grpc_client : Option Broker → Conn → Client Conn Broker
  grpc_client broker conn = record { conn = conn; broker = broker }

  abbrev pub runtime_client : Client Conn Broker → TypedClient Conn
  runtime_client c = record { service = "silo.plugin.v1.Runtime"; conn = c.conn }

  abbrev pub metadata_provider_client : Client Conn Broker → TypedClient Conn
  metadata_provider_client c = record { service = "silo.plugin.v1.MetadataProvider"; conn = c.conn }

  abbrev pub image_resolver_client : Client Conn Broker → TypedClient Conn
  image_resolver_client c = record { service = "silo.plugin.v1.ImageResolver"; conn = c.conn }

  abbrev pub marker_provider_client : Client Conn Broker → TypedClient Conn
  marker_provider_client c = record { service = "silo.plugin.v1.MarkerProvider"; conn = c.conn }

  abbrev pub media_analyzer_client : Client Conn Broker → TypedClient Conn
  media_analyzer_client c = record { service = "silo.plugin.v1.MediaAnalyzer"; conn = c.conn }

  abbrev pub scheduled_task_client : Client Conn Broker → TypedClient Conn
  scheduled_task_client c = record { service = "silo.plugin.v1.ScheduledTask"; conn = c.conn }

  abbrev pub scan_source_client : Client Conn Broker → TypedClient Conn
  scan_source_client c = record { service = "silo.plugin.v1.ScanSource"; conn = c.conn }

  abbrev pub request_router_client : Client Conn Broker → TypedClient Conn
  request_router_client c = record { service = "silo.plugin.v1.RequestRouter"; conn = c.conn }

  abbrev pub event_consumer_client : Client Conn Broker → TypedClient Conn
  event_consumer_client c = record { service = "silo.plugin.v1.EventConsumer"; conn = c.conn }

  abbrev pub auth_provider_client : Client Conn Broker → TypedClient Conn
  auth_provider_client c = record { service = "silo.plugin.v1.AuthProvider"; conn = c.conn }

  abbrev pub auth_provider_checks_client : Client Conn Broker → TypedClient Conn
  auth_provider_checks_client c = record { service = checks_service; conn = c.conn }

  abbrev pub network_identity_auth_client : Client Conn Broker → TypedClient Conn
  network_identity_auth_client c = record { service = network_service; conn = c.conn }

  abbrev pub http_routes_client : Client Conn Broker → TypedClient Conn
  http_routes_client c = record { service = "silo.plugin.v1.HttpRoutes"; conn = c.conn }

  abbrev pub watch_sync_provider_client : Client Conn Broker → TypedClient Conn
  watch_sync_provider_client c = record {
    service = "silo.plugin.v1.WatchSyncProvider";
    conn = c.conn;
  }

  abbrev pub device_authorization_client : Client Conn Broker → TypedClient Conn
  device_authorization_client c = record { service = device_service; conn = c.conn }

  abbrev pub network_access_provider_client : Client Conn Broker → TypedClient Conn
  network_access_provider_client c = record {
    service = "silo.plugin.v1.NetworkAccessProvider";
    conn = c.conn;
  }
