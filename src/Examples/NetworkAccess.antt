-- ===== src/Examples/NetworkAccess.antt =====
-- examples/hello-network-access/main.go: a provider without a network, which keeps its intent in
-- instance state. Its mutex makes each call one step. `sdkruntime.Host()` is called once to restore
-- and once by the call itself, and each may find that the host is not there. Logging is left out.
pub mod Laws
pub mod Intent
use Prim.Native.String.{◌++◌ as str_append}
use bloem_plugin_sdk.Base.{
  String, Bool, true, false, not, ◌&&◌, Option, none, some, List, [], ◌∷◌, ◌++◌, str_eq, ◌==◌,
  Result, ok, err, if◌then◌else◌,
}
use bloem_plugin_sdk.Base.Int.{ℤ, pos, eqb_ℤ}
use bloem_plugin_sdk.Text.Show.{show_int}
use bloem_plugin_sdk.RuntimeHost.InstanceState.{
  Bytes, StateError, StateHost, read_instance_state, write_instance_state,
}
use bloem_plugin_sdk.RuntimeHost.HostInfo.{
  HostListener, HostInfo, NetworkAccessListener, NetworkAccessStatus, AccessHost, get_host_info,
  report_network_access_status, listener_api,
}

abbrev pub desired_key : String
desired_key = "desired_connected"

pub record Provider : Type 0 where
  pub connected : Bool
  pub desired : Bool
  pub restored : Bool
  pub host_info : Option HostInfo

-- of a process that has just started
abbrev pub new_provider : Provider
new_provider = record { connected = false; desired = false; restored = false; host_info = none }

pub data ProviderError (E : Type 0) : Type 0 where
  no_host_info : E → ProviderError E
  not_persisted : StateError E → ProviderError E

-- Whether `sdkruntime.Host()` finds the host, in `restoreLocked` and in the call itself.
pub record Hosts : Type 0 where
  pub at_restore : Bool
  pub at_call : Bool

abbrev pub intent : Bool → Bytes
intent desired = if desired then b'1' ∷ [] else b'0' ∷ []

-- `found && string(value) == "1"`
abbrev is_one : Bytes → Bool
is_one (c ∷ []) = c == b'1'
is_one _ = false

abbrev pub found_one : Option Bytes → Bool
found_one none = false
found_one (some value) = is_one value

-- `statusLocked`
abbrev pub stub_hostname : String
stub_hostname = "stub.invalid"

unfoldable pub origin_of : ℤ → String
unfolding show_int
origin_of port =
    if not (eqb_ℤ port (pos 0)) && not (eqb_ℤ port (pos 443))
    then str_append "https://" (str_append stub_hostname (str_append ":" (show_int port)))
    else str_append "https://" stub_hostname

unfoldable pub add_listener : NetworkAccessStatus → HostListener → NetworkAccessStatus
unfolding origin_of
add_listener status l =
    let origin = origin_of l.default_port in
    record status {
      listeners = status.listeners ++ (record { name = l.name; origin = origin } ∷ []);
      origin = if str_eq l.name listener_api then origin else status.origin;
    }

unfoldable pub add_listeners : NetworkAccessStatus → List HostListener → NetworkAccessStatus
unfolding add_listener
add_listeners status [] = status
add_listeners status (l ∷ ls) = add_listeners (add_listener status l) ls

abbrev pub add_info : NetworkAccessStatus → Option HostInfo → NetworkAccessStatus
add_info status none = status
add_info status (some info) = add_listeners status info.listeners

abbrev pub default_origin : NetworkAccessStatus → NetworkAccessStatus
default_origin status = record status {
  origin = if str_eq status.origin "" then str_append "https://" stub_hostname else status.origin;
}

abbrev pub disconnected_status : Bool → NetworkAccessStatus
disconnected_status desired = record {
  state = "disconnected";
  hostname = "";
  origin = "";
  addresses = [];
  listeners = [];
  auth_url = "";
  error = "";
  provider_version = "stub 0.1.0";
  desired_connected = desired;
}

unfoldable pub status_locked : Provider → NetworkAccessStatus
unfolding add_listeners
status_locked p =
    let status = disconnected_status p.desired in
    if not p.connected
    then status
    else default_origin (
        add_info
          (record status {
            state = "connected";
            hostname = stub_hostname;
            addresses = "100.64.0.1" ∷ [];
          })
          p.host_info)

pub data ProviderCall : Type 0 where
  connects disconnects gets_status : Hosts → ProviderCall

-- The provider and the host after a call, and what it returns.
abbrev pub Answer : Type 0 → Type 0 → Type 0
Answer S E = (Provider × S) × Result (ProviderError E) NetworkAccessStatus

module _ {S E : Type 0} (state : StateHost S E) (access : AccessHost S E) where
  abbrev pub with_info : Provider → S × Result E HostInfo → Provider × S
  with_info p (s, err e) = (p, s)
  with_info p (s, ok info) = (record p { host_info = some info }, s)

  abbrev pub resume : Bool → Provider → S → Provider × S
  resume false p s = (p, s)
  resume true p s =
      with_info (record p { desired = true; connected = true }) (get_host_info access s)

  abbrev pub restore_from : Provider → S × Result (StateError E) (Option Bytes) → Provider × S
  restore_from p (s, err e) = (p, s)
  restore_from p (s, ok value) = resume (found_one value) (record p { restored = true }) s

  -- `restoreLocked`
  unfoldable pub restore_locked : Bool → Provider → S → Provider × S
  unfolding read_instance_state get_host_info
  restore_locked has_host p s =
      if p.restored
      then (p, s)
      else if not has_host
      then (p, s)
      else restore_from p (read_instance_state state desired_key s)

  -- `persistLocked`
  unfoldable pub persist_locked : Bool → Provider → S → S × Result (StateError E) (Unit {0})
  unfolding write_instance_state
  persist_locked has_host p s =
      if not has_host
      then (s, ok tt)
      else write_instance_state state desired_key (intent p.desired) s

  -- `reportLocked`
  unfoldable pub report_locked : Bool → NetworkAccessStatus → S → S
  unfolding report_network_access_status
  report_locked has_host status s =
      if not has_host then s else (report_network_access_status access (some status) s).0

  abbrev pub persisted : Bool → Provider → S × Result (StateError E) (Unit {0}) → Answer S E
  persisted has_host p (s, err e) = ((p, s), err (not_persisted e))
  persisted has_host p (s, ok u) =
      ((p, report_locked has_host (status_locked p) s), ok (status_locked p))

  -- The end of `Connect` and of `Disconnect`, on what the host told.
  abbrev pub settle : Bool → Bool → Provider → S → Answer S E
  settle desired has_host p s =
      let p' = record p { connected = desired; desired = desired } in
      persisted has_host p' (persist_locked has_host p' s)

  abbrev pub connect_with : Bool → Provider → S × Result E HostInfo → Answer S E
  connect_with has_host p (s, err e) = ((p, s), err (no_host_info e))
  connect_with has_host p (s, ok info) = settle true has_host (record p { host_info = some info }) s

  abbrev pub connect_restored : Bool → Provider × S → Answer S E
  connect_restored has_host (p, s) =
      if has_host
      then connect_with has_host p (get_host_info access s)
      else settle true has_host p s

  abbrev pub disconnect_restored : Bool → Provider × S → Answer S E
  disconnect_restored has_host (p, s) = settle false has_host p s

  abbrev pub status_restored : Provider × S → Answer S E
  status_restored (p, s) = ((p, s), ok (status_locked p))

  -- `Connect`
  unfoldable pub connect : Hosts → Provider → S → Answer S E
  unfolding restore_locked
  connect hosts p s = connect_restored hosts.at_call (restore_locked hosts.at_restore p s)

  -- `Disconnect`
  unfoldable pub disconnect : Hosts → Provider → S → Answer S E
  unfolding restore_locked
  disconnect hosts p s = disconnect_restored hosts.at_call (restore_locked hosts.at_restore p s)

  -- `GetStatus`
  unfoldable pub get_status : Hosts → Provider → S → Answer S E
  unfolding restore_locked
  get_status hosts p s = status_restored (restore_locked hosts.at_restore p s)

  unfoldable pub call : ProviderCall → Provider → S → Answer S E
  unfolding connect disconnect get_status
  call (connects hosts) p s = connect hosts p s
  call (disconnects hosts) p s = disconnect hosts p s
  call (gets_status hosts) p s = get_status hosts p s

  -- The calls of one process, one after the other, whether they fail or not.
  unfoldable pub run : List ProviderCall → Provider × S → Provider × S
  unfolding call
  run [] at = at
  run (c ∷ cs) at = run cs (call c at.0 at.1).0
