-- ===== src/Examples/NetworkAccess/Intent.antt =====
-- The provider's intent over restarts of its process.
use bloem_plugin_sdk.Base.{
  String, Bool, true, false, not, Option, none, some, List, [], ◌∷◌, Result, ok, err, if◌then◌else◌,
  ◌≡◌, refl, sym, ap, ◌∙◌, subst, ◌⊎◌, inl, inr, Bool-cases, str_eq,
}
use bloem_plugin_sdk.RuntimeHost.InstanceState.{
  ReadInstanceStateResponse, StateError, StateHost, Bytes, read_result, read_instance_state,
  write_state,
}
use bloem_plugin_sdk.RuntimeHost.InstanceState.Laws.{IsStore, response, write_state-eq-ok_iff}
use bloem_plugin_sdk.RuntimeHost.HostInfo.{
  HostInfo, NetworkAccessStatus, AccessHost, ReportError, GetHostInfoResponse, get_host_info,
  info_result, report_network_access_status, report_result,
}
use bloem_plugin_sdk.Examples.NetworkAccess.{
  desired_key, Provider, new_provider, Hosts, intent, found_one, status_locked, ProviderCall,
  connects, disconnects, with_info, resume, restore_from, restore_locked, persist_locked,
  report_locked, persisted, settle, connect_with, connect, disconnect, get_status, call,
}
use bloem_plugin_sdk.Examples.NetworkAccess.Laws.{if-Holds, restore_locked-Holds, status_locked_lem}

-- What happens after the intent has been stored: a status is asked for, or the process starts anew.
pub data Later : Type 0 where
  asks : Hosts → Later
  restarts : Later

-- The host keeps instance state, and no other call of the provider changes it.
pub record IsKeeper {S E : Type 0} (state : StateHost S E) (access : AccessHost S E) : Type 0 where
  pub store : IsStore state
  pub read_keeps : (key k : String) (s : S) → store.view (state.read key s).0 k ≡ store.view s k
  pub info_keeps : (k : String) (s : S) → store.view (access.host_info s).0 k ≡ store.view s k
  pub report_keeps :
      (status : NetworkAccessStatus) (k : String) (s : S)
      → store.view (access.report status s).0 k ≡ store.view s k

found_one-intent : (w : Bool) → found_one (some (intent w)) ≡ w
found_one-intent true = refl
found_one-intent false = refl

module _ {S E : Type 0} (state : StateHost S E) (access : AccessHost S E) where
  unfoldable pub follow : List Later → Provider × S → Provider × S
  unfolding get_status
  follow [] at = at
  follow (asks hosts ∷ ls) at = follow ls (get_status state access hosts at.0 at.1).0
  follow (restarts ∷ ls) at = follow ls (new_provider, at.1)

  module _ (keeper : IsKeeper state access) where
    abbrev stored : S → Option Bytes
    stored s = keeper.store.view s desired_key

    get_host_info-stored : (s : S) → stored (get_host_info access s).0 ≡ stored s
    unfolding get_host_info
    get_host_info-stored s = kept (access.host_info s) ∙ keeper.info_keeps desired_key s
      where
        kept : (r : S × Result E GetHostInfoResponse) → stored (info_result r).0 ≡ stored r.0
        kept (s, err e) = refl
        kept (s, ok r) = refl

    report_locked-stored :
        (has_host : Bool) (status : NetworkAccessStatus) (s : S)
        → stored (report_locked state access has_host status s) ≡ stored s
    unfolding report_locked report_network_access_status
    report_locked-stored has_host status s =
        if-Holds {A = S} (λ t. stored t ≡ stored s) (not has_host) refl
          (if-Holds {A = S × Result (ReportError E) (Unit {0})} (λ a. stored a.0 ≡ stored s)
            (str_eq status.state "") refl
            (kept (access.report status s) ∙ keeper.report_keeps status desired_key s))
      where
        kept : (r : S × Result E (Unit {0})) → stored (report_result r).0 ≡ stored r.0
        kept (s, err e) = refl
        kept (s, ok u) = refl

    -- The intent is stored, and the process either has it or has not asked for it yet.
    abbrev Stands : Bool → Provider × S → Type 0
    Stands w (p, s) =
        (stored s ≡ some (intent w))
        × ((p.desired ≡ w) ⊎ ((p.restored ≡ false) × (p.desired ≡ false)))

    with_info-Stands :
        (w : Bool) (p : Provider) (r : S × Result E HostInfo)
        → stored r.0 ≡ some (intent w)
        → p.desired ≡ w
        → (Stands w (with_info state access p r)) × ((with_info state access p r).0.desired ≡ w)
    with_info-Stands w p (s, err e) h d = ((h, inl d), d)
    with_info-Stands w p (s, ok info) h d = ((h, inl d), d)

    resume-Stands :
        (w : Bool) (p : Provider) (s : S)
        → stored s ≡ some (intent w)
        → (p.desired ≡ w) ⊎ (p.desired ≡ false)
        → (Stands w (resume state access w p s)) × ((resume state access w p s).0.desired ≡ w)
    resume-Stands true p s h d =
        with_info-Stands true (record p { desired = true; connected = true })
          (get_host_info access s) (get_host_info-stored s ∙ h) refl
    resume-Stands false p s h (inl d) = ((h, inl d), d)
    resume-Stands false p s h (inr d) = ((h, inl d), d)

    abbrev wanted_or_not :
        (w : Bool) (at : Provider × S) → Stands w at → (at.0.desired ≡ w) ⊎ (at.0.desired ≡ false)
    wanted_or_not w at (_, inl d) = inl d
    wanted_or_not w at (_, inr (_, d)) = inr d

    abbrev value_of : ReadInstanceStateResponse → Option Bytes
    value_of r = if not r.found then none else some r.value

    -- `restoreLocked` on what the host answers.
    restore_from-Stands :
        (w : Bool) (p : Provider) (s : S) (r : S × Result E ReadInstanceStateResponse)
        → Stands w (p, s)
        → stored r.0 ≡ stored s
        → ((a : ReadInstanceStateResponse) → r.1 ≡ ok a → value_of a ≡ some (intent w))
        → Stands w (restore_from state access p (read_result r))
          × ((a : ReadInstanceStateResponse)
              → r.1 ≡ ok a
              → (restore_from state access p (read_result r)).0.desired ≡ w)
    restore_from-Stands w p s (t, err e') h same answers = ((same ∙ h.0, h.1), λ a e. cc e)
    restore_from-Stands w p s (t, ok a) h same answers =
        let p' = record p { restored = true } in
        let read : w ≡ found_one (value_of a) =
          sym (ap found_one (answers a refl) ∙ found_one-intent w) in
        let (stands, d) =
          subst
            (λ b.
              Stands w (resume state access b p' t) × ((resume state access b p' t).0.desired ≡ w))
            read (resume-Stands w p' t (same ∙ h.0) (wanted_or_not w (p, s) h)) in
        (stands, λ a e. d)

    persisted-eq-ok :
        (p : Provider) (r : S × Result (StateError E) (Unit {0})) (at : Provider × S)
        (status : NetworkAccessStatus)
        → persisted state access true p r ≡ (at, ok status)
        → (s : S) × ((r ≡ (s, ok tt))
            × (at ≡ (p, report_locked state access true (status_locked p) s)))
    persisted-eq-ok p (s, ok u) at status h = (s, (refl, sym (ap (λ a. a.0) h)))
    persisted-eq-ok p (s, err e) at status h = absurd (cc (ap (λ a. a.1) h))

    Stands-of_settle :
        (w : Bool) (p : Provider) (s : S) (at : Provider × S) (status : NetworkAccessStatus)
        → settle state access w true p s ≡ (at, ok status)
        → Stands w at
    unfolding write_state persist_locked
    Stands-of_settle w p s at status h =
        let p' = record p { connected = w; desired = w } in
        let (t, (written, e)) =
          persisted-eq-ok p' (persist_locked state access true p' s) at status h in
        let (_, _, kept) = (write_state-eq-ok_iff state desired_key (intent w) s t).0 written in
        subst (Stands w) (sym e) (
          report_locked-stored true (status_locked p') t
              ∙ keeper.store.writes desired_key (intent w) s t kept,
          inl refl,
        )

    -- What the host answers is what is stored.
    answered :
        (w : Bool) (s : S) (a : ReadInstanceStateResponse)
        → stored s ≡ some (intent w)
        → (state.read desired_key s).1 ≡ ok a
        → value_of a ≡ some (intent w)
    answered w s a h e = ap value_of (keeper.store.reads desired_key s a e ∙ ap response h)

    -- A call that restores first.
    restore_locked-Stands :
        (w has_host : Bool) (p : Provider) (s : S)
        → Stands w (p, s)
        → Stands w (restore_locked state access has_host p s)
    unfolding read_instance_state
    restore_locked-Stands w has_host p s h =
        restore_locked-Holds state access (Stands w) has_host p s h
          (restore_from-Stands w p s (state.read desired_key s) h
            (keeper.read_keeps desired_key desired_key s) (λ a e. answered w s a h.0 e)).0

    follow-Stands :
        (w : Bool) (ls : List Later) (p : Provider) (s : S)
        → Stands w (p, s)
        → Stands w (follow ls (p, s))
    unfolding follow get_status
    follow-Stands w [] p s h = h
    follow-Stands w (asks hosts ∷ ls) p s h =
        let (p', s') = restore_locked state access hosts.at_restore p s in
        follow-Stands w ls p' s' (restore_locked-Stands w hosts.at_restore p s h)
    follow-Stands w (restarts ∷ ls) p s h =
        follow-Stands w ls new_provider s (h.0, inr (refl, refl))

    -- Connect and Disconnect, when the host is there.
    abbrev pub sets : Bool → Bool → ProviderCall
    sets w at_restore =
        let hosts : Hosts = record { at_restore = at_restore; at_call = true } in
        if w then connects hosts else disconnects hosts

    Stands-of_connect :
        (p : Provider) (r : S × Result E HostInfo) (at : Provider × S)
        (status : NetworkAccessStatus)
        → connect_with state access true p r ≡ (at, ok status)
        → Stands true at
    Stands-of_connect p (s, err e) at status h = absurd (cc (ap (λ a. a.1) h))
    Stands-of_connect p (s, ok info) at status h =
        Stands-of_settle true (record p { host_info = some info }) s at status h

    Stands-of_call :
        (w at_restore : Bool) (p : Provider) (s : S) (at : Provider × S)
        (status : NetworkAccessStatus)
        → call state access (sets w at_restore) p s ≡ (at, ok status)
        → Stands w at
    unfolding call connect disconnect
    Stands-of_call true at_restore p s at status h =
        let (p', s') = restore_locked state access at_restore p s in
        Stands-of_connect p' (get_host_info access s') at status h
    Stands-of_call false at_restore p s at status h =
        let (p', s') = restore_locked state access at_restore p s in
        Stands-of_settle false p' s' at status h

    -- The host is there and answers the read: the provider has the intent.
    restored_intent :
        (w : Bool) (p : Provider) (s : S) (a : ReadInstanceStateResponse)
        → Stands w (p, s)
        → (state.read desired_key s).1 ≡ ok a
        → (restore_locked state access true p s).0.desired ≡ w
    unfolding restore_locked read_instance_state
    restored_intent w p s a h answer =
        let after = restore_from state access p (read_instance_state state desired_key s) in
        elim (Bool-cases p.restored) [
          | inl e ↦
              subst (λ b. (if b then (p, s) else after).0.desired ≡ w) (sym e)
                (restored_wanted e h.1)
          | inr e ↦
              subst (λ b. (if b then (p, s) else after).0.desired ≡ w) (sym e)
                ((restore_from-Stands w p s (state.read desired_key s) h
                    (keeper.read_keeps desired_key desired_key s) (λ a e. answered w s a h.0 e)).1
                  a answer)
        ]
      where
        restored_wanted :
            p.restored ≡ true
            → (p.desired ≡ w) ⊎ ((p.restored ≡ false) × (p.desired ≡ false))
            → p.desired ≡ w
        restored_wanted e (inl d) = d
        restored_wanted e (inr (r, d)) = absurd (cc (e, r))

    -- With a host that keeps instance state: once Connect or Disconnect has succeeded with the host
    -- there, and then statuses have been asked for and the process has been restarted any number of
    -- times, a status that is asked for when the host is there and answers the read says that
    -- intent.
    pub intent_survives :
        (w at_restore at_call : Bool) (p : Provider) (s : S) (at : Provider × S)
        (status : NetworkAccessStatus) (ls : List Later) (a : ReadInstanceStateResponse)
        → call state access (sets w at_restore) p s ≡ (at, ok status)
        → (state.read desired_key (follow ls at).1).1 ≡ ok a
        → let now =
            get_status state access
              (record { at_restore = true; at_call = at_call })
              (follow ls at).0
              (follow ls at).1 in
          (told : NetworkAccessStatus) × ((now.1 ≡ ok told) × (told.desired_connected ≡ w))
    unfolding get_status
    intent_survives w at_restore at_call p s at status ls a h answer =
        let (p', s') = follow ls at in
        let stands = follow-Stands w ls at.0 at.1 (Stands-of_call w at_restore p s at status h) in
        let restored = restore_locked state access true p' s' in
        (
          status_locked restored.0,
          (refl, (status_locked_lem restored.0).1 ∙ restored_intent w p' s' a stands answer),
        )
