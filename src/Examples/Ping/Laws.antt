-- ===== src/Examples/Ping/Laws.antt =====
-- What the task publishes once the host has bound the plugin.
use bloem_plugin_sdk.Base.{
  ℕ, zero, suc, String, Option, some, List, length, Result, ok, err, ◌≡◌, ◌≢◌, refl, ap, ◌∙◌,
}
use bloem_plugin_sdk.Values.{Any}
use bloem_plugin_sdk.Runtime.Host.Laws.{host-of_client, set_broker_id-of_dial}
use bloem_plugin_sdk.Runtime.Default.{bind_host_broker}
use bloem_plugin_sdk.RuntimeHost.Events.{everyone, EventMessage, publish_event, answered_event}
use bloem_plugin_sdk.Examples.Ping.{Process, ping_payload, bind, published, run_task, run_tasks}

module _ {Broker Conn S Q J E : Type 0} (dial : Broker → ℕ → ℕ → Option Conn)
    (new_struct : List (String × Any) → Result J Q)
    (send : Conn → EventMessage Q → S → S × Result E (Unit {0})) where
  abbrev pub ping : Q → EventMessage Q
  ping q = record { target = everyone; event_name = "ping"; payload = some q }

  -- The host's side after a number of events on one connection.
  abbrev pub after_pings : Conn → Q → ℕ → S → S
  after_pings conn q zero s = s
  after_pings conn q (suc n) s = after_pings conn q n (send conn (ping q) s).0

  published-answered :
      (p : Process Broker Conn S J E) (answer : S × Result E (Unit {0}))
      → ((published dial new_struct send p (answered_event new_struct answer)).0.world ≡ answer.0)
        × ((published dial new_struct send p (answered_event new_struct answer)).0.plugin_host
            ≡ p.plugin_host)
  published-answered p (s, ok u) = (refl, refl)
  published-answered p (s, err e) = (refl, refl)

  -- Each run of a task whose plugin has a client sends one event.
  run_task-world :
      (p : Process Broker Conn S J E) (conn : Conn) (q : Q)
      → p.plugin_host.client ≡ some conn
      → new_struct ping_payload ≡ ok q
      → ((run_task dial new_struct send p).0.world ≡ (send conn (ping q) p.world).0)
        × ((run_task dial new_struct send p).0.plugin_host ≡ p.plugin_host)
  unfolding run_task publish_event
  run_task-world p conn q h k =
      rw (host-of_client dial p.plugin_host conn h)
        (rw k (published-answered p (send conn (ping q) p.world)))

  run_tasks-world :
      (n : ℕ) (p : Process Broker Conn S J E) (conn : Conn) (q : Q)
      → p.plugin_host.client ≡ some conn
      → new_struct ping_payload ≡ ok q
      → ((run_tasks dial new_struct send n p).world ≡ after_pings conn q n p.world)
        × ((run_tasks dial new_struct send n p).plugin_host ≡ p.plugin_host)
  unfolding run_tasks
  run_tasks-world zero p conn q h k = (refl, refl)
  run_tasks-world (suc n) p conn q h k =
      let (world, kept) = run_task-world p conn q h k in
      let p' = (run_task dial new_struct send p).0 in
      let (worlds, keeps) = run_tasks-world n p' conn q (ap (λ t. t.client) kept ∙ h) k in
      (worlds ∙ ap (after_pings conn q n) world, keeps ∙ kept)

  -- If the broker is set, and the host binds a stream, not 0, that can be dialled then, and structpb
  -- makes a struct of the task's map, then any number of runs of the task, whatever becomes of their
  -- events, sends the host one event each, with that struct, all on the one connection that this
  -- dial made; no run dials again.
  pub run_tasks-bind :
      (p : Process Broker Conn S J E) (b : Broker) (id : ℕ) (conn : Conn) (q : Q) (n : ℕ)
      → p.plugin_host.broker ≡ some b
      → id ≢ 0
      → dial b id (length p.plugin_host.attempts) ≡ some conn
      → new_struct ping_payload ≡ ok q
      → let p' = run_tasks dial new_struct send n (bind dial new_struct send id p) in
        (p'.world ≡ after_pings conn q n p.world)
        × (length p'.plugin_host.attempts ≡ suc (length p.plugin_host.attempts))
  unfolding bind bind_host_broker
  run_tasks-bind p b id conn q n f nz d k =
      let bound = set_broker_id-of_dial dial p.plugin_host b id conn f nz d in
      let (world, kept) =
        run_tasks-world n (bind dial new_struct send id p) conn q (ap (λ t. t.client) bound) k in
      (world, ap (λ t. length t.attempts) (kept ∙ bound))
