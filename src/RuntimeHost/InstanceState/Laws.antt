-- ===== src/RuntimeHost/InstanceState/Laws.antt =====
-- The limits that a write keeps, and that what was written is read again.
use Prim.Native.String.{len}
use bloem_plugin_sdk.Base.{
  ◌≤◌, String, true, false, Option, none, some, [], length, Result, ok, err, ◌≡◌, ◌≢◌, refl, ap,
  ◌∙◌, ◌↔◌, ◌⊎◌, inl, inr, arith, eq_iff,
}
use bloem_plugin_sdk.RuntimeHost.InstanceState.{
  Bytes, ReadInstanceStateResponse, StateError, rpc, StateHost, validate_instance_state_key,
  check_write, after_check, read_result, write_result, existing, read_instance_state,
  write_instance_state, read_state, write_state,
}

-- A key and a value within the limits.
abbrev pub IsKey : String → Type 0
IsKey key = (key ≢ "") × (len key ≤ 256)

validate-IsKey_iff :
    {E : Type 0} (key : String) → (validate_instance_state_key {E = E} key ≡ ok tt) ↔ IsKey key
unfolding validate_instance_state_key
validate-IsKey_iff key = ground (arith, eq_iff key "")

check_write_iff :
    {E : Type 0} (key : String) (value : Bytes)
    → (check_write {E = E} key value ≡ ok tt) ↔ (IsKey key × (length value ≤ 262144))
unfolding check_write validate_instance_state_key
check_write_iff key value = ground (arith, eq_iff key "")

err-≢-ok : {E A : Type 0} {e : E} {a : A} → ¬ (◌≡◌ {A = Result E A} (err e) (ok a))
err-≢-ok h = cc h

module _ {S E : Type 0} (host : StateHost S E) where
  write_host_iff :
      (check : Result (StateError E) (Unit {0})) (s s' : S) (answer : S × Result E (Unit {0}))
      → (after_check check s (write_result answer) ≡ (s', ok tt))
        ↔ ((check ≡ ok tt) × (answer ≡ (s', ok tt)))
  write_host_iff (ok u) s s' (t, ok v) = (λ h. (refl, cc h), λ h. cc (h.1))
  write_host_iff (ok u) s s' (t, err e) =
      (λ h. absurd (err-≢-ok (ap (λ r. r.1) h)), λ h. absurd (err-≢-ok (ap (λ r. r.1) h.1)))
  write_host_iff (err e) s s' answer =
      (λ h. absurd (err-≢-ok (ap (λ r. r.1) h)), λ h. absurd (err-≢-ok h.0))

  -- WriteState succeeds exactly when the key is not empty and at most 256 bytes long, the value has
  -- at most 256 KiB, and the host accepts the write.
  pub write_state-eq-ok_iff :
      (key : String) (value : Bytes) (s s' : S)
      → (write_state host key value s ≡ (s', ok tt))
        ↔ (IsKey key × (length value ≤ 262144) × (host.write key value s ≡ (s', ok tt)))
  unfolding write_state write_instance_state
  write_state-eq-ok_iff key value s s' =
      let checked = check_write_iff {E = E} key value in
      let called = write_host_iff (check_write key value) s s' (host.write key value s) in
      (
        λ h. let (c, w) = called.0 h in let (k, v) = checked.0 c in (k, v, w),
        λ h. called.1 (checked.1 (h.0, h.1), h.2),
      )

-- The response for a stored value.
abbrev pub response : Option Bytes → ReadInstanceStateResponse
response none = record { found = false; value = [] }
response (some v) = record { found = true; value = v }

-- What the service documents of the host: its state has a view as a map from keys to values, a read
-- that succeeds answers with the value in it, and a write that succeeds sets that key.
pub record IsStore {S E : Type 0} (host : StateHost S E) : Type 0 where
  pub view : S → String → Option Bytes
  pub reads :
      (key : String) (s : S) (r : ReadInstanceStateResponse)
      → (host.read key s).1 ≡ ok r
      → r ≡ response (view s key)
  pub writes :
      (key : String) (value : Bytes) (s s' : S)
      → host.write key value s ≡ (s', ok tt)
      → view s' key ≡ some value

read_answer :
    {S E : Type 0} (check : Result (StateError E) (Unit {0})) (s : S)
    (answer : S × Result E ReadInstanceStateResponse) (value : Bytes)
    → check ≡ ok tt
    → ((r : ReadInstanceStateResponse) → answer.1 ≡ ok r → r ≡ response (some value))
    → ((e : E) × ((existing (after_check check s (read_result answer))).1 ≡ err (rpc e)))
      ⊎ ((existing (after_check check s (read_result answer))).1 ≡ ok value)
read_answer (ok u) s (t, err e) value c law = inl (e, refl)
read_answer {S} {E} (ok u) s (t, ok r) value c law =
    inr (ap (λ r. (existing {E = E} (read_result (t, ok r))).1) (law r refl))
read_answer (err e) s answer value c law = absurd (err-≢-ok c)

-- After a successful WriteState, ReadState of the same key gives exactly the value written, unless
-- the round trip to the host fails; it never reports the key as absent.
pub read_state-write_state :
    {S E : Type 0} (host : StateHost S E)
    → IsStore host
    → (key : String) (value : Bytes) (s s' : S) → write_state host key value s ≡ (s', ok tt)
    → ((e : E) × ((read_state host key s').1 ≡ err (rpc e)))
      ⊎ ((read_state host key s').1 ≡ ok value)
unfolding read_state read_instance_state
read_state-write_state host store key value s s' h =
    let (valid, _, written) = (write_state-eq-ok_iff host key value s s').0 h in
    read_answer (validate_instance_state_key key) s' (host.read key s') value
      ((validate-IsKey_iff key).1 valid)
      (λ r e. store.reads key s' r e ∙ ap response (store.writes key value s s' written))
