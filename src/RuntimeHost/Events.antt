-- ===== src/RuntimeHost/Events.antt =====
-- PublishEvent, PublishEventTo and CheckMediaPresence of client.go, and events.go. The host's calls
-- and structpb.NewStruct are parameters; a `Struct` is of the parameter's type.
use bloem_plugin_sdk.Base.{
  String, not, Option, none, some, List, [], ◌∷◌, str_eq, lookup, insert, lookup-insert, Result, ok,
  err, ◌>>=◌, ◌>>◌, fail_if, wrap, if◌then◌else◌, ◌≡◌, refl, ap, ◌∙◌,
}
use bloem_plugin_sdk.Base.Int.{ℤ, pos, ltb_ℤ}
use bloem_plugin_sdk.Values.{Any}

pub data Target : Type 0 where
  everyone : Target
  plugin : String → Target
  installation : ℤ → Target

pub data EventError (J E : Type 0) : Type 0 where
  event_name_required target_plugin_id_required target_installation_id_required : EventError J E
  payload_not_encoded : J → EventError J E
  rpc : E → EventError J E

-- the messages of the three RPCs
pub record EventMessage (Q : Type 0) : Type 0 where
  pub target : Target
  pub event_name : String
  pub payload : Option Q

module _ {Q J E : Type 0} (new_struct : List (String × Any) → Result J Q) where
  -- `structFromMap`
  unfoldable pub struct_from_map : List (String × Any) → Result (EventError J E) (Option Q)
  struct_from_map [] = ok none
  struct_from_map (e ∷ es) = wrap payload_not_encoded (new_struct (e ∷ es)) >>= λ s. ok (some s)

  abbrev pub check_target : Target → Result (EventError J E) (Unit {0})
  check_target everyone = ok tt
  check_target (plugin id) = fail_if (str_eq id "") target_plugin_id_required
  check_target (installation id) = fail_if (not (ltb_ℤ (pos 0) id)) target_installation_id_required

  -- `PublishEvent`, `PublishEventTo` and `PublishEventToInstallation` up to the call of the host
  unfoldable pub event_message :
      Target → String → List (String × Any) → Result (EventError J E) (EventMessage Q)
  unfolding struct_from_map
  event_message target name payload = do
    check_target target
    fail_if (str_eq name "") event_name_required
    s ← struct_from_map payload
    ok (record { target = target; event_name = name; payload = s })

  abbrev pub answered_event :
      {S : Type 0} → S × Result E (Unit {0}) → S × Result (EventError J E) (Unit {0})
  answered_event (s, err e) = (s, err (rpc e))
  answered_event (s, ok u) = (s, ok tt)

  module _ {S : Type 0} (send : EventMessage Q → S → S × Result E (Unit {0})) where
    abbrev pub send_event :
        Result (EventError J E) (EventMessage Q) → S → S × Result (EventError J E) (Unit {0})
    send_event (err e) s = (s, err e)
    send_event (ok message) s = answered_event (send message s)

    unfoldable pub publish_event :
        Target → String → List (String × Any) → S → S × Result (EventError J E) (Unit {0})
    unfolding event_message
    publish_event target name payload s = send_event (event_message target name payload) s

-- `MediaPresence`, and the message of that name
pub record MediaPresence : Type 0 where
  pub external_id : String
  pub media_id : String
  pub library_id : String
  pub title : String

-- The loop of `CheckMediaPresence` over the matches, into a map.
unfoldable pub index_presence :
    List (String × MediaPresence) → List MediaPresence → List (String × MediaPresence)
unfolding insert
index_presence out [] = out
index_presence out (p ∷ ps) = index_presence (insert p.external_id p out) ps

-- `CheckMediaPresence`, whose answer of the host is a parameter
unfoldable pub check_media_presence :
    {E : Type 0}
    → List String
    → Result E (List MediaPresence)
    → Result E (List (String × MediaPresence))
unfolding index_presence
check_media_presence [] answer = ok []
check_media_presence (id ∷ ids) answer = answer >>= λ ps. ok (index_presence [] ps)

-- The last match with an id, if there is one.
abbrev pub last_presence : Option MediaPresence → String → List MediaPresence → Option MediaPresence
last_presence found id [] = found
last_presence found id (p ∷ ps) =
    last_presence (if str_eq p.external_id id then some p else found) id ps

-- The map that CheckMediaPresence builds has, under an id, the last match with that id.
lookup-index_presence :
    (id : String) (out : List (String × MediaPresence)) (ps : List MediaPresence)
    → lookup id (index_presence out ps) ≡ last_presence (lookup id out) id ps
unfolding index_presence
lookup-index_presence id out [] = refl
lookup-index_presence id out (p ∷ ps) =
    lookup-index_presence id (insert p.external_id p out) ps
    ∙ ap (λ o. last_presence o id ps) (lookup-insert p.external_id id p out)
