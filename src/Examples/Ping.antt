-- ===== src/Examples/Ping.antt =====
-- examples/hello-runtime-host/main.go: a scheduled task that publishes an event on the host. What
-- the host does with an event, by the connection it came on, is a parameter.
pub mod Laws
use bloem_plugin_sdk.Base.{ℕ, zero, suc, String, Option, none, some, List, [], ◌∷◌, Result, ok, err}
use bloem_plugin_sdk.Values.{Any, text}
use bloem_plugin_sdk.Runtime.Host.{HostState, host}
use bloem_plugin_sdk.Runtime.Default.{BindHostBrokerRequest, bind_host_broker}
use bloem_plugin_sdk.RuntimeHost.Events.{Target, everyone, EventMessage, EventError, publish_event}

pub data LogLine (J E : Type 0) : Type 0 where
  not_bound : LogLine J E
  publish_failed : EventError J E → LogLine J E

-- The process of the plugin, with the host's side of things; the log has its latest line first.
pub record Process (Broker Conn S J E : Type 0) : Type 0 where
  pub plugin_host : HostState Broker Conn
  pub world : S
  pub log : List (LogLine J E)

abbrev pub ping_payload : List (String × Any)
ping_payload = ("message", text "hello") ∷ []

module _ {Broker Conn S Q J E : Type 0} (dial : Broker → ℕ → ℕ → Option Conn)
    (new_struct : List (String × Any) → Result J Q)
    (send : Conn → EventMessage Q → S → S × Result E (Unit {0})) where
  -- `BindHostBroker`, inherited from the default server
  unfoldable pub bind : ℕ → Process Broker Conn S J E → Process Broker Conn S J E
  unfolding bind_host_broker
  bind id p = record p {
    plugin_host = bind_host_broker dial (record { broker_id = id }) p.plugin_host;
  }

  abbrev pub published :
      Process Broker Conn S J E
      → S × Result (EventError J E) (Unit {0})
      → Process Broker Conn S J E × Result (EventError J E) (Unit {0})
  published p (s, ok u) = (record p { world = s }, ok tt)
  published p (s, err e) = (record p { world = s; log = publish_failed e ∷ p.log }, err e)

  abbrev pub run_with :
      Option Conn
      → Process Broker Conn S J E
      → Process Broker Conn S J E × Result (EventError J E) (Unit {0})
  run_with none p = (record p { log = not_bound ∷ p.log }, ok tt)
  run_with (some conn) p =
      published p (publish_event new_struct (send conn) everyone "ping" ping_payload p.world)

  -- `Run`
  unfoldable pub run_task :
      Process Broker Conn S J E → Process Broker Conn S J E × Result (EventError J E) (Unit {0})
  unfolding publish_event
  run_task p =
      let (h, client) = host dial p.plugin_host in run_with client (record p { plugin_host = h })

  -- the task as the host schedules it, a number of times
  unfoldable pub run_tasks : ℕ → Process Broker Conn S J E → Process Broker Conn S J E
  unfolding run_task
  run_tasks zero p = p
  run_tasks (suc n) p = run_tasks n (run_task p).0
