-- ===== src/RuntimeHost/InstanceState.antt =====
-- instance_state.go: a plugin instance's private key-value state. The host is a parameter, with its
-- state passed on explicitly; contexts and timeouts are left out, since they only choose when a call
-- fails.
pub mod Laws
use Prim.Native.String.{len}
use bloem_plugin_sdk.Base.{
  ℕ, ◌*◌, String, Bool, not, Option, none, some, List, str_eq, length, ltb, Result, ok, err, ◌>>◌,
  fail_if, if◌then◌else◌,
}

abbrev pub Bytes : Type 0
Bytes = List ℕ

abbrev pub max_instance_state_key_bytes : ℕ
max_instance_state_key_bytes = 256

abbrev pub max_instance_state_value_bytes : ℕ
max_instance_state_value_bytes = 256 * 1024

-- `ReadInstanceStateResponse`
pub record ReadInstanceStateResponse : Type 0 where
  pub found : Bool
  pub value : Bytes

pub data StateError (E : Type 0) : Type 0 where
  key_required key_too_long value_too_long state_not_exist : StateError E
  rpc : E → StateError E

-- What the host does for the two RPCs.
pub record StateHost (S E : Type 0) : Type 0 where
  pub read : String → S → S × Result E ReadInstanceStateResponse
  pub write : String → Bytes → S → S × Result E (Unit {0})

module _ {E : Type 0} where
  unfoldable pub validate_instance_state_key : String → Result (StateError E) (Unit {0})
  validate_instance_state_key key = do
    fail_if (str_eq key "") key_required
    fail_if (ltb max_instance_state_key_bytes (len key)) key_too_long

  -- The checks of `WriteInstanceState` before the round trip.
  unfoldable pub check_write : String → Bytes → Result (StateError E) (Unit {0})
  unfolding validate_instance_state_key
  check_write key value = do
    validate_instance_state_key key
    fail_if (ltb max_instance_state_value_bytes (length value)) value_too_long

  -- What `ReadInstanceState` makes of the answer; `ok none` is (nil, false, nil).
  abbrev pub read_result :
      {S : Type 0}
      → S × Result E ReadInstanceStateResponse
      → S × Result (StateError E) (Option Bytes)
  read_result (s, err e) = (s, err (rpc e))
  read_result (s, ok r) = (s, ok (if not r.found then none else some r.value))

  abbrev pub write_result :
      {S : Type 0} → S × Result E (Unit {0}) → S × Result (StateError E) (Unit {0})
  write_result (s, err e) = (s, err (rpc e))
  write_result (s, ok tt) = (s, ok tt)

  -- A call of the host, unless a check before it failed.
  abbrev pub after_check :
      {S A : Type 0}
      → Result (StateError E) (Unit {0})
      → S
      → S × Result (StateError E) A
      → S × Result (StateError E) A
  after_check (ok tt) s answer = answer
  after_check (err e) s answer = (s, err e)

  -- `ErrStateNotExist` for an absent key
  abbrev pub existing :
      {S : Type 0} → S × Result (StateError E) (Option Bytes) → S × Result (StateError E) Bytes
  existing (s, err e) = (s, err e)
  existing (s, ok none) = (s, err state_not_exist)
  existing (s, ok (some value)) = (s, ok value)

module _ {S E : Type 0} (host : StateHost S E) where
  unfoldable pub read_instance_state : String → S → S × Result (StateError E) (Option Bytes)
  unfolding validate_instance_state_key
  read_instance_state key s =
      after_check (validate_instance_state_key key) s (read_result (host.read key s))

  unfoldable pub write_instance_state : String → Bytes → S → S × Result (StateError E) (Unit {0})
  unfolding check_write
  write_instance_state key value s =
      after_check (check_write key value) s (write_result (host.write key value s))

  -- `InstanceStateStore.ReadState` and `WriteState`
  unfoldable pub read_state : String → S → S × Result (StateError E) Bytes
  unfolding read_instance_state
  read_state key s = existing (read_instance_state key s)

  unfoldable pub write_state : String → Bytes → S → S × Result (StateError E) (Unit {0})
  unfolding write_instance_state
  write_state key value s = write_instance_state key value s
