-- ===== src/Runtime/Host/Laws.antt =====
-- What every schedule of calls keeps, and what the cache promises.
use mathlib.Core.Option.{some-injective}
use bloem_plugin_sdk.Base.{
  ℕ, zero, suc, ◌≡◌, refl, ◌≢◌, ◌⊎◌, inl, inr, true, false, Option, none, some, List, [], ◌∷◌, ◌==◌,
  length, arith, Bool-cases, subst, sym, ap, ◌∙◌, ◌↔◌,
}
use bloem_plugin_sdk.Runtime.Host.{
  HostState, initial_host, set_broker, dial_broker, dial_locked, set_broker_id, host, HostCall,
  sets_broker, sets_broker_id, gets_host, call, run,
}

module _ {Broker Conn : Type 0} (dial : Broker → ℕ → ℕ → Option Conn) where
  -- A cached client is a connection that the present broker gave for the stream that is bound.
  abbrev IsCached : Option Broker → ℕ → Option Conn → Type 0
  IsCached b id none = Unit
  IsCached b id (some c) =
      (id ≢ 0) × ((k : Broker) × (b ≡ some k) × ((n : ℕ) × (dial k id n ≡ some c)))

  abbrev IsBound : HostState Broker Conn → Type 0
  IsBound s = IsCached s.broker s.broker_id s.client

  IsCached-of_dial :
      (b : Broker) (id n : ℕ) (o : Option Conn) → dial b id n ≡ o → id ≢ 0 → IsCached (some b) id o
  IsCached-of_dial b id n none e h = tt
  IsCached-of_dial b id n (some c) e h = (h, (b, refl, (n, e)))

  dial_broker-IsBound :
      (o : Option Conn) (b : Option Broker) (s : HostState Broker Conn)
      → s.client ≡ o
      → s.broker ≡ b
      → IsBound s
      → IsBound (dial_broker dial o b s)
  dial_broker-IsBound (some c) b s e f h = h
  dial_broker-IsBound none none s e f h = h
  dial_broker-IsBound none (some k) s e f h = elim (Bool-cases (s.broker_id == 0)) [
    | inl z ↦ rw z h
    | inr z ↦ rw z (
        subst (λ b. IsCached b s.broker_id (dial k s.broker_id (length s.attempts))) (sym f)
          (IsCached-of_dial k s.broker_id (length s.attempts) _ refl (ground (arith, z))))
  ]

  dial_locked-IsBound : (s : HostState Broker Conn) → IsBound s → IsBound (dial_locked dial s)
  unfolding dial_locked
  dial_locked-IsBound s h = dial_broker-IsBound s.client s.broker s refl refl h

  call-IsBound :
      (c : HostCall dial) (s : HostState Broker Conn) → IsBound s → IsBound (call dial c s)
  unfolding call set_broker set_broker_id host
  call-IsBound (sets_broker b) s h = tt
  call-IsBound (sets_broker_id id) s h =
      dial_locked-IsBound (record s { broker_id = id; client = none }) tt
  call-IsBound gets_host s h = dial_locked-IsBound s h

  run_from-IsBound :
      (cs : List (HostCall dial)) (s : HostState Broker Conn) → IsBound s → IsBound (run dial cs s)
  unfolding run
  run_from-IsBound [] s h = h
  run_from-IsBound (c ∷ cs) s h = run_from-IsBound cs _ (call-IsBound c s h)

  -- what a sequence of calls has set: the broker of the last call of setBroker, and the stream of the
  -- last call of setBrokerID behind it
  abbrev pub broker_of : Option Broker → List (HostCall dial) → Option Broker
  broker_of b [] = b
  broker_of b (sets_broker k ∷ cs) = broker_of k cs
  broker_of b (sets_broker_id id ∷ cs) = broker_of b cs
  broker_of b (gets_host ∷ cs) = broker_of b cs

  abbrev pub stream_of : ℕ → List (HostCall dial) → ℕ
  stream_of n [] = n
  stream_of n (sets_broker k ∷ cs) = stream_of 0 cs
  stream_of n (sets_broker_id id ∷ cs) = stream_of id cs
  stream_of n (gets_host ∷ cs) = stream_of n cs

  -- A state with a given broker and stream, whose cached client is a connection that this broker
  -- gave for this stream.
  abbrev pub IsAt : Option Broker → ℕ → HostState Broker Conn → Type 0
  IsAt b id s = (s.broker ≡ b) × (s.broker_id ≡ id) × IsCached b id s.client

  dial_broker-fields :
      (o : Option Conn) (b : Option Broker) (s : HostState Broker Conn)
      → ((dial_broker dial o b s).broker ≡ s.broker)
        × ((dial_broker dial o b s).broker_id ≡ s.broker_id)
  dial_broker-fields (some c) b s = (refl, refl)
  dial_broker-fields none none s = (refl, refl)
  dial_broker-fields none (some k) s = elim (Bool-cases (s.broker_id == 0)) [
    | inl z ↦ rw z (refl, refl)
    | inr z ↦ rw z (refl, refl)
  ]

  run-fields :
      (cs : List (HostCall dial)) (s : HostState Broker Conn)
      → ((run dial cs s).broker ≡ broker_of s.broker cs)
        × ((run dial cs s).broker_id ≡ stream_of s.broker_id cs)
  unfolding run call set_broker set_broker_id host dial_locked
  run-fields [] s = (refl, refl)
  run-fields (sets_broker b ∷ cs) s = run-fields cs _
  run-fields (sets_broker_id id ∷ cs) s =
      let s' = record s { broker_id = id; client = none } in
      let same = dial_broker-fields s'.client s'.broker s' in
      let (f, g) = run-fields cs (dial_broker dial s'.client s'.broker s') in
      (f ∙ ap (λ b. broker_of b cs) same.0, g ∙ ap (λ n. stream_of n cs) same.1)
  run-fields (gets_host ∷ cs) s =
      let same = dial_broker-fields s.client s.broker s in
      let (f, g) = run-fields cs (dial_broker dial s.client s.broker s) in
      (f ∙ ap (λ b. broker_of b cs) same.0, g ∙ ap (λ n. stream_of n cs) same.1)

  -- After any sequence of calls from the start, the broker is the one of the last call of setBroker,
  -- the bound stream is the one of the last call of setBrokerID behind that, or 0 if there is none,
  -- and a client that is cached is a connection that Dial of this broker gave for this stream, which
  -- is not 0.
  pub run-IsAt :
      (cs : List (HostCall dial))
      → IsAt (broker_of none cs) (stream_of 0 cs) (run dial cs initial_host)
  run-IsAt cs =
      let (f, g) = run-fields cs initial_host in
      (
        f,
        g,
        subst (λ b. IsCached b (stream_of 0 cs) (run dial cs initial_host).client) f
            (subst
              (λ n. IsCached (run dial cs initial_host).broker n (run dial cs initial_host).client)
              g (run_from-IsBound cs initial_host tt)),
      )

  dial_broker-of_some :
      (o : Option Conn) (b : Option Broker) (s : HostState Broker Conn) (c : Conn)
      → o ≡ some c
      → dial_broker dial o b s ≡ s
  dial_broker-of_some o b s c h = rw h refl

  -- A cached client is returned as it is.
  pub host-of_client :
      (s : HostState Broker Conn) (c : Conn) → s.client ≡ some c → host dial s ≡ (s, some c)
  unfolding host dial_locked
  host-of_client s c h =
      let e = dial_broker-of_some s.client s.broker s c h in
      λ i. (e i, (ap (λ (t : HostState Broker Conn). t.client) e ∙ h) i)

  -- the calls that only ask for the client
  abbrev pub gets : ℕ → List (HostCall dial)
  gets zero = []
  gets (suc n) = gets_host ∷ gets n

  run-gets_of_client :
      (n : ℕ) (s : HostState Broker Conn) (c : Conn) → s.client ≡ some c → run dial (gets n) s ≡ s
  unfolding run call host dial_locked
  run-gets_of_client zero s c h = refl
  run-gets_of_client (suc n) s c h =
      ap (run dial (gets n)) (dial_broker-of_some s.client s.broker s c h)
      ∙ run-gets_of_client n s c h

  -- Once Host has returned a client, any number of further calls of Host changes nothing: the
  -- client stays and Dial is not called again.
  pub run-gets :
      (n : ℕ) (s : HostState Broker Conn) (c : Conn)
      → (host dial s).1 ≡ some c
      → run dial (gets n) (host dial s).0 ≡ (host dial s).0
  unfolding host
  run-gets n s c h = run-gets_of_client n (dial_locked dial s) c h

  -- why no client can be had now
  abbrev pub IsUnreachable : HostState Broker Conn → Type 0
  IsUnreachable s =
      (s.broker ≡ none)
      ⊎ ((s.broker_id ≡ 0)
          ⊎ ((k : Broker) × (s.broker ≡ some k) × (dial k s.broker_id (length s.attempts) ≡ none)))

  dial_fails :
      (k : Broker) (s : HostState Broker Conn)
      → s.broker ≡ some k
      → s.broker_id ≢ 0
      → IsUnreachable s
      → dial k s.broker_id (length s.attempts) ≡ none
  dial_fails k s f nz (inl g) = cc (f, g)
  dial_fails k s f nz (inr (inl g)) = absurd (nz g)
  dial_fails k s f nz (inr (inr (j, g, h))) =
      subst (λ b. dial b s.broker_id (length s.attempts) ≡ none) (some-injective _ _ (sym g ∙ f)) h

  client_none :
      (o : Option Conn) (b : Option Broker) (s : HostState Broker Conn)
      → s.client ≡ o
      → s.broker ≡ b
      → ((dial_broker dial o b s).client ≡ none) ↔ ((s.client ≡ none) × IsUnreachable s)
  client_none (some c) b s e f = ((λ h. (h, cc (e, h))), (λ h. h.0))
  client_none none none s e f = ((λ h. (e, inl f)), (λ h. e))
  client_none none (some k) s e f = elim (Bool-cases (s.broker_id == 0)) [
    | inl z ↦ rw z ((λ h. (h, inr (inl (ground (arith, z))))), (λ h. e))
    | inr z ↦
        rw z ((λ h. (e, inr (inr (k, f, h)))), (λ h. dial_fails k s f (ground (arith, z)) h.1))
  ]

  -- Host returns nil exactly when no client is cached and either no broker is set, or no stream is
  -- bound, or the broker's Dial fails at this attempt.
  pub host-eq-none_iff :
      (s : HostState Broker Conn) → ((host dial s).1 ≡ none) ↔ ((s.client ≡ none) × IsUnreachable s)
  unfolding host dial_locked
  host-eq-none_iff s = client_none s.client s.broker s refl refl

  abbrev pub after_bind : Broker → ℕ → Conn → HostState Broker Conn → HostState Broker Conn
  after_bind b id c s = record s {
    broker_id = id;
    client = some c;
    attempts = record { broker = b; stream = id; connected = true } ∷ s.attempts;
  }

  pub set_broker_id-of_dial :
      (s : HostState Broker Conn) (b : Broker) (id : ℕ) (c : Conn)
      → s.broker ≡ some b
      → id ≢ 0
      → dial b id (length s.attempts) ≡ some c
      → set_broker_id dial id s ≡ after_bind b id c s
  unfolding set_broker_id dial_locked
  set_broker_id-of_dial s b id c f nz h =
      let z : (id == 0) ≡ false = ground (arith, nz) in rw (f, z, h) refl

  -- When the stream can be dialled at the time it is bound, binding dials once, and every later
  -- call of Host returns that client without another dial, whatever Dial would answer then.
  pub bind-gets :
      (s : HostState Broker Conn) (b : Broker) (id : ℕ) (c : Conn) (n : ℕ)
      → s.broker ≡ some b
      → id ≢ 0
      → dial b id (length s.attempts) ≡ some c
      → let s' = run dial (sets_broker_id id ∷ gets n) s in
        ((host dial s').1 ≡ some c) × (length s'.attempts ≡ suc (length s.attempts))
  unfolding run call host dial_locked
  bind-gets s b id c n f nz h =
      let e = set_broker_id-of_dial s b id c f nz h in
      let g = run-gets_of_client n (after_bind b id c s) c refl in
      subst (λ t. ((host dial t).1 ≡ some c) × (length t.attempts ≡ suc (length s.attempts)))
        (sym (ap (run dial (gets n)) e ∙ g)) (refl, refl)
