-- ===== src/Runtime/Host.antt =====
-- pluginHostState: the plugin-side broker, the stream that the host has bound, and the cached client.
-- The mutex makes each method one step, so any schedule of calls is a sequence of operations. What
-- the broker's Dial answers is the parameter `dial`, which may change from one attempt to the next.
pub mod Laws
use bloem_plugin_sdk.Base.{
  ℕ, Bool, true, false, Option, none, some, List, [], ◌∷◌, ◌==◌, length, if◌then◌else◌, is_some,
}

-- One call of Dial: the broker, the stream, and whether it connected.
pub record Attempt (Broker : Type 0) : Type 0 where
  pub broker : Broker
  pub stream : ℕ
  pub connected : Bool

pub record HostState (Broker Conn : Type 0) : Type 0 where
  pub broker : Option Broker
  -- 0 before the host has bound a stream
  pub broker_id : ℕ
  -- the connection of the cached `runtimehost.Client`
  pub client : Option Conn
  -- the calls of Dial so far, the latest first
  pub attempts : List (Attempt Broker)

module _ {Broker Conn : Type 0} where
  abbrev pub initial_host : HostState Broker Conn
  initial_host = record { broker = none; broker_id = 0; client = none; attempts = [] }

  -- `setBroker`
  unfoldable pub set_broker : Option Broker → HostState Broker Conn → HostState Broker Conn
  set_broker b s = record s { broker = b; broker_id = 0; client = none }

module _ {Broker Conn : Type 0} (dial : Broker → ℕ → ℕ → Option Conn) where
  abbrev pub dial_broker :
      Option Conn → Option Broker → HostState Broker Conn → HostState Broker Conn
  dial_broker (some c) b s = s
  dial_broker none none s = s
  dial_broker none (some b) s =
      let conn = dial b s.broker_id (length s.attempts) in
      if s.broker_id == 0 then s else record s {
        client = conn;
        attempts =
            record { broker = b; stream = s.broker_id; connected = is_some conn } ∷ s.attempts;
      }

  -- `dialLocked`
  unfoldable pub dial_locked : HostState Broker Conn → HostState Broker Conn
  dial_locked s = dial_broker s.client s.broker s

  -- `setBrokerID`
  unfoldable pub set_broker_id : ℕ → HostState Broker Conn → HostState Broker Conn
  unfolding dial_locked
  set_broker_id id s = dial_locked (record s { broker_id = id; client = none })

  -- `host`
  unfoldable pub host : HostState Broker Conn → HostState Broker Conn × Option Conn
  unfolding dial_locked
  host s = let s' = dial_locked s in (s', s'.client)

  pub data HostCall : Type 0 where
    sets_broker : Option Broker → HostCall
    sets_broker_id : ℕ → HostCall
    gets_host : HostCall

  unfoldable pub call : HostCall → HostState Broker Conn → HostState Broker Conn
  unfolding set_broker set_broker_id host
  call (sets_broker b) s = set_broker b s
  call (sets_broker_id id) s = set_broker_id id s
  call gets_host s = (host s).0

  unfoldable pub run : List HostCall → HostState Broker Conn → HostState Broker Conn
  unfolding call
  run [] s = s
  run (c ∷ cs) s = run cs (call c s)
