-- ===== src/Examples/NetworkAccess/Laws.antt =====
-- What the provider keeps: its state agrees with its intent, and so does every status it gives.
use bloem_plugin_sdk.Base.{
  String, Bool, true, false, not, Option, none, some, List, [], ◌∷◌, Result, ok, err, if◌then◌else◌,
  ◌≡◌, refl, sym, ap, ◌∙◌, inl, inr, Bool-cases,
}
use bloem_plugin_sdk.RuntimeHost.InstanceState.{Bytes, StateError, StateHost, read_instance_state}
use bloem_plugin_sdk.RuntimeHost.HostInfo.{
  HostListener, HostInfo, NetworkAccessStatus, AccessHost, get_host_info,
}
use bloem_plugin_sdk.Examples.NetworkAccess.{
  desired_key, Provider, ProviderError, new_provider, found_one, add_listener, add_listeners,
  add_info, status_locked, Answer, ProviderCall, connects, disconnects, gets_status, with_info,
  resume, restore_from, restore_locked, persist_locked, persisted, settle, connect_with,
  connect_restored, connect, disconnect, get_status, call, run,
}

-- The provider is connected exactly when it wants to be.
abbrev pub IsSettled : Provider → Type 0
IsSettled p = p.connected ≡ p.desired

-- A listener changes neither the state nor the intent of a status.
add_listeners-keeps :
    (status : NetworkAccessStatus) (ls : List HostListener)
    → ((add_listeners status ls).state ≡ status.state)
      × ((add_listeners status ls).desired_connected ≡ status.desired_connected)
unfolding add_listeners add_listener
add_listeners-keeps status [] = (refl, refl)
add_listeners-keeps status (l ∷ ls) = add_listeners-keeps (add_listener status l) ls

add_info-keeps :
    (status : NetworkAccessStatus) (info : Option HostInfo)
    → ((add_info status info).state ≡ status.state)
      × ((add_info status info).desired_connected ≡ status.desired_connected)
add_info-keeps status none = (refl, refl)
add_info-keeps status (some info) = add_listeners-keeps status info.listeners

abbrev pub state_name : Bool → String
state_name connected = if connected then "connected" else "disconnected"

pub status_locked_lem :
    (p : Provider)
    → ((status_locked p).state ≡ state_name p.connected)
      × ((status_locked p).desired_connected ≡ p.desired)
unfolding status_locked
status_locked_lem p = elim (Bool-cases p.connected) [
  | inl e ↦ rw e (add_info-keeps _ p.host_info)
  | inr e ↦ rw e (refl, refl)
]

pub if-Holds :
    {A : Type 0} (P : A → Type 0) {x y : A} (b : Bool) → P x → P y → P (if b then x else y)
if-Holds P true hx hy = hx
if-Holds P false hx hy = hy

-- The state that a status names is the one it says the provider wants.
abbrev pub IsConsistent : {E : Type 0} → Result (ProviderError E) NetworkAccessStatus → Type 0
IsConsistent (err e) = Unit
IsConsistent (ok status) = status.state ≡ state_name status.desired_connected

module _ {S E : Type 0} (state : StateHost S E) (access : AccessHost S E) where
  with_info-IsSettled :
      (p : Provider) (r : S × Result E HostInfo)
      → IsSettled p
      → IsSettled (with_info state access p r).0
  with_info-IsSettled p (s, err e) h = h
  with_info-IsSettled p (s, ok info) h = h

  resume-IsSettled :
      (b : Bool) (p : Provider) (s : S) → IsSettled p → IsSettled (resume state access b p s).0
  resume-IsSettled false p s h = h
  resume-IsSettled true p s h =
      with_info-IsSettled (record p { desired = true; connected = true }) (get_host_info access s)
        refl

  restore_from-IsSettled :
      (p : Provider) (r : S × Result (StateError E) (Option Bytes))
      → IsSettled p
      → IsSettled (restore_from state access p r).0
  restore_from-IsSettled p (s, err e) h = h
  restore_from-IsSettled p (s, ok value) h =
      resume-IsSettled (found_one value) (record p { restored = true }) s h

  -- `restoreLocked` either does nothing or follows what the host stores.
  pub restore_locked-Holds :
      (P : Provider × S → Type 0) (has_host : Bool) (p : Provider) (s : S)
      → P (p, s)
      → P (restore_from state access p (read_instance_state state desired_key s))
      → P (restore_locked state access has_host p s)
  unfolding restore_locked
  restore_locked-Holds P has_host p s before after =
      if-Holds P p.restored before (if-Holds P (not has_host) before after)

  restore_locked-IsSettled :
      (has_host : Bool) (p : Provider) (s : S)
      → IsSettled p
      → IsSettled (restore_locked state access has_host p s).0
  restore_locked-IsSettled has_host p s h =
      restore_locked-Holds (λ at. IsSettled at.0) has_host p s h
        (restore_from-IsSettled p (read_instance_state state desired_key s) h)

  abbrev Tells : Answer S E → Type 0
  Tells (at, err e) = IsSettled at.0
  Tells (at, ok status) = IsSettled at.0 × (status ≡ status_locked at.0)

  persisted-Tells :
      (has_host : Bool) (p : Provider) (r : S × Result (StateError E) (Unit {0}))
      → IsSettled p
      → Tells (persisted state access has_host p r)
  persisted-Tells has_host p (s, err e) h = h
  persisted-Tells has_host p (s, ok u) h = (h, refl)

  settle-Tells :
      (desired has_host : Bool) (p : Provider) (s : S)
      → Tells (settle state access desired has_host p s)
  settle-Tells desired has_host p s =
      let p' = record p { connected = desired; desired = desired } in
      persisted-Tells has_host p' (persist_locked state access has_host p' s) refl

  connect_with-Tells :
      (has_host : Bool) (p : Provider) (r : S × Result E HostInfo)
      → IsSettled p
      → Tells (connect_with state access has_host p r)
  connect_with-Tells has_host p (s, err e) h = h
  connect_with-Tells has_host p (s, ok info) h =
      settle-Tells true has_host (record p { host_info = some info }) s

  connect_restored-Tells :
      (has_host : Bool) (at : Provider × S)
      → IsSettled at.0
      → Tells (connect_restored state access has_host at)
  connect_restored-Tells true (p, s) h = connect_with-Tells true p (get_host_info access s) h
  connect_restored-Tells false (p, s) h = settle-Tells true false p s

  call-Tells :
      (c : ProviderCall) (p : Provider) (s : S) → IsSettled p → Tells (call state access c p s)
  unfolding call connect disconnect get_status
  call-Tells (connects hosts) p s h =
      connect_restored-Tells hosts.at_call (restore_locked state access hosts.at_restore p s)
        (restore_locked-IsSettled hosts.at_restore p s h)
  call-Tells (disconnects hosts) p s h =
      let (p', s') = restore_locked state access hosts.at_restore p s in
      settle-Tells false hosts.at_call p' s'
  call-Tells (gets_status hosts) p s h = (restore_locked-IsSettled hosts.at_restore p s h, refl)

  Tells-IsSettled : (a : Answer S E) → Tells a → IsSettled a.0.0
  Tells-IsSettled (at, err e) h = h
  Tells-IsSettled (at, ok status) h = h.0

  run-IsSettled :
      (cs : List ProviderCall) (p : Provider) (s : S)
      → IsSettled p
      → IsSettled (run state access cs (p, s)).0
  unfolding run
  run-IsSettled [] p s h = h
  run-IsSettled (c ∷ cs) p s h =
      let (at, _) = call state access c p s in
      run-IsSettled cs at.0 at.1 (Tells-IsSettled (call state access c p s) (call-Tells c p s h))

  Tells-IsConsistent : (a : Answer S E) → Tells a → IsConsistent a.1
  Tells-IsConsistent (at, err e) h = tt
  Tells-IsConsistent (at, ok status) h =
      let told = status_locked_lem at.0 in rw h.1 (told.0 ∙ ap state_name (h.0 ∙ sym told.1))

  -- After any calls of a process, whatever the host answers and whichever of them fail, a status that
  -- the next call returns is "connected" if it says that the provider wants to be connected, and
  -- "disconnected" otherwise.
  pub call-IsConsistent :
      (cs : List ProviderCall) (c : ProviderCall) (s : S)
      → let at = run state access cs (new_provider, s) in
        IsConsistent (call state access c at.0 at.1).1
  call-IsConsistent cs c s =
      let at = run state access cs (new_provider, s) in
      Tells-IsConsistent (call state access c at.0 at.1)
        (call-Tells c at.0 at.1 (run-IsSettled cs new_provider s refl))
