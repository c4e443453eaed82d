-- ===== src/Runtime/Default.antt =====
-- pkg/pluginsdk/runtimedefault/runtime.go: the handler of the host's BindHostBroker call.
use bloem_plugin_sdk.Base.{ℕ, Option}
use bloem_plugin_sdk.Runtime.Host.{HostState, set_broker_id}

-- the message `BindHostBrokerRequest`
pub record BindHostBrokerRequest : Type 0 where
  pub broker_id : ℕ

-- `BindHostBroker`, which never fails
unfoldable pub bind_host_broker :
    {Broker Conn : Type 0}
    → (Broker → ℕ → ℕ → Option Conn)
    → BindHostBrokerRequest
    → HostState Broker Conn
    → HostState Broker Conn
unfolding set_broker_id
bind_host_broker dial req s = set_broker_id dial req.broker_id s
