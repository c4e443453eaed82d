-- ===== src/RuntimeHost/HostInfo.antt =====
-- host_info.go and network_access.go: what the host tells of itself, and the report of a network
-- access status. The host is a parameter, with its state passed on explicitly.
use bloem_plugin_sdk.Base.{
  String, Bool, Option, none, some, List, [], ◌∷◌, str_eq, map, Result, ok, err, if◌then◌else◌,
}
use bloem_plugin_sdk.Base.Int.{ℤ, pos}

abbrev pub listener_api : String
listener_api = "api"

-- the message `HostListener`
pub record ListenerMessage : Type 0 where
  pub name : String
  pub address : String
  pub default_port : ℤ

pub record GetHostInfoResponse : Type 0 where
  pub public_base_url : String
  pub internal_base_url : String
  pub plugin_proxy_base_url : String
  pub host_role : String
  pub host_name : String
  pub node_id : ℤ
  pub ingress_token : String
  pub listeners : List (Option ListenerMessage)

-- `HostListener` of host_info.go
pub record HostListener : Type 0 where
  pub name : String
  pub address : String
  pub default_port : ℤ

pub record HostInfo : Type 0 where
  pub public_base_url : String
  pub internal_base_url : String
  pub plugin_proxy_base_url : String
  pub host_role : String
  pub host_name : String
  pub node_id : ℤ
  pub ingress_token : String
  pub listeners : List HostListener

pub record NetworkAccessListener : Type 0 where
  pub name : String
  pub origin : String

pub record NetworkAccessStatus : Type 0 where
  pub state : String
  pub hostname : String
  pub origin : String
  pub addresses : List String
  pub listeners : List NetworkAccessListener
  pub auth_url : String
  pub error : String
  pub provider_version : String
  pub desired_connected : Bool

-- What the host does for the two RPCs.
pub record AccessHost (S E : Type 0) : Type 0 where
  pub host_info : S → S × Result E GetHostInfoResponse
  pub report : NetworkAccessStatus → S → S × Result E (Unit {0})

-- One step of the loop of `GetHostInfo`, on a pointer whose getters accept nil
unfoldable pub listener_of : Option ListenerMessage → HostListener
listener_of none = record { name = ""; address = ""; default_port = pos 0 }
listener_of (some l) = record { name = l.name; address = l.address; default_port = l.default_port }

unfoldable pub info_of : GetHostInfoResponse → HostInfo
unfolding listener_of
info_of r = record {
  public_base_url = r.public_base_url;
  internal_base_url = r.internal_base_url;
  plugin_proxy_base_url = r.plugin_proxy_base_url;
  host_role = r.host_role;
  host_name = r.host_name;
  node_id = r.node_id;
  ingress_token = r.ingress_token;
  listeners = map listener_of r.listeners;
}

abbrev pub info_result : {S E : Type 0} → S × Result E GetHostInfoResponse → S × Result E HostInfo
info_result (s, err e) = (s, err e)
info_result (s, ok r) = (s, ok (info_of r))

-- The loop of `Listener`, whose pointer is to the listener found
unfoldable pub find_listener : List HostListener → String → Option HostListener
find_listener [] name = none
find_listener (l ∷ ls) name = if str_eq l.name name then some l else find_listener ls name

-- `Listener`
unfoldable pub listener : Option HostInfo → String → Option HostListener
unfolding find_listener
listener none name = none
listener (some h) name = find_listener h.listeners name

pub data ReportError (E : Type 0) : Type 0 where
  status_required state_required : ReportError E
  rpc : E → ReportError E

abbrev pub report_result :
    {S E : Type 0} → S × Result E (Unit {0}) → S × Result (ReportError E) (Unit {0})
report_result (s, err e) = (s, err (rpc e))
report_result (s, ok u) = (s, ok tt)

module _ {S E : Type 0} (host : AccessHost S E) where
  -- `GetHostInfo`
  unfoldable pub get_host_info : S → S × Result E HostInfo
  unfolding info_of
  get_host_info s = info_result (host.host_info s)

  -- `ReportNetworkAccessStatus`
  unfoldable pub report_network_access_status :
      Option NetworkAccessStatus → S → S × Result (ReportError E) (Unit {0})
  report_network_access_status none s = (s, err status_required)
  report_network_access_status (some status) s =
      if str_eq status.state ""
      then (s, err state_required)
      else report_result (host.report status s)
