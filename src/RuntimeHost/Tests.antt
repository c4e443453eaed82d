-- ===== src/RuntimeHost/Tests.antt =====
-- The discovery of one plugin, and the instance state over a host that keeps one association list.
use bloem_plugin_sdk.Base.{
  suc, ℕ, ◌≤◌, String, true, false, ◌↔◌, some, List, [], ◌∷◌, length, str_eq, Result, ok, err, ◌≡◌,
  refl, ◌⊎◌, sym, ap, lookup, insert, lookup-insert, eq_iff, ◌∙◌,
}
use bloem_plugin_sdk.Base.Int.{pos, IsInt32}
use bloem_plugin_sdk.Base.{Option, none}
use bloem_plugin_sdk.Manifest.Tests.{network_sign_in}
use bloem_plugin_sdk.RuntimeHost.Discovery.{InstalledPlugin}
use bloem_plugin_sdk.RuntimeHost.InstanceState.{
  Bytes, ReadInstanceStateResponse, rpc, StateHost, validate_instance_state_key, check_write,
  read_state, write_state, write_instance_state,
}
use bloem_plugin_sdk.RuntimeHost.InstanceState.Laws.{
  IsKey, response, IsStore, write_state-eq-ok_iff, read_state-write_state,
}
use bloem_plugin_sdk.RuntimeHost.Streams.{
  ScopedStreamRequest, scoped_message, mint_message, mint_message-limits_iff,
}
use bloem_plugin_sdk.RuntimeHost.Catalog.{
  ListLibraryMediaRequest, ListLibraryMediaRequestMessage, LibraryMediaAnswer,
  ListLibraryMediaResponse, empty_item, page_of, list_library_media,
}
use bloem_plugin_sdk.RuntimeHost.Catalog.Laws.{IsMediaMessage, IsPage, list_library_media-eq-ok_iff}

abbrev plugin : Option InstalledPlugin
plugin = some (record {
  installation_id = pos 4;
  plugin_id = "overlay-sign-in";
  version = "1.2.0";
  enabled = true;
  capabilities = none ∷ some network_sign_in ∷ [];
})

abbrev pub Store : Type 0
Store = List (String × Bytes)

unfoldable pub read : String → Store → Store × Result ℕ ReadInstanceStateResponse
unfolding lookup
read key s = (s, ok (response (lookup key s)))

unfoldable pub write : String → Bytes → Store → Store × Result ℕ (Unit {0})
unfolding insert
write key value s = (insert key value s, ok tt)

abbrev pub store_host : StateHost Store ℕ
store_host = record { read = read; write = write }

lookup_written :
    (key : String) (value : Bytes) (s : Store) → lookup key (insert key value s) ≡ some value
lookup_written key value s =
    let same : str_eq key key ≡ true = (eq_iff key key).1 refl in
    lookup-insert key key value s ∙ (rw same refl)

pub store_host-IsStore : IsStore store_host
unfolding read write
store_host-IsStore = record {
  view = λ s key. lookup key s;
  reads = λ key s r h. cc (sym h);
  writes = λ key value s s' h. ap (lookup key) (sym (ap (λ p. p.0) h)) ∙ lookup_written key value s;
}

abbrev new_value : Bytes
new_value = 1 ∷ 2 ∷ []

abbrev store : Store
store = ("node-key", 7 ∷ []) ∷ []

write_state-eq-ok_iff_example :
    IsKey "node-key"
    × (length new_value ≤ 262144)
    × (write "node-key" new_value store ≡ (("node-key", new_value) ∷ [], ok tt))
unfolding write_state write_instance_state check_write validate_instance_state_key write insert
write_state-eq-ok_iff_example =
    (write_state-eq-ok_iff store_host "node-key" new_value store (("node-key", new_value) ∷ [])).0
      refl

read_state-write_state_example :
    ((e : ℕ) × ((read_state store_host "node-key" (("node-key", new_value) ∷ [])).1 ≡ err (rpc e)))
    ⊎ ((read_state store_host "node-key" (("node-key", new_value) ∷ [])).1 ≡ ok new_value)
unfolding write_state write_instance_state check_write validate_instance_state_key write insert
read_state-write_state_example =
    read_state-write_state store_host store_host-IsStore "node-key" new_value store
      (("node-key", new_value) ∷ []) refl

abbrev stream_request : ScopedStreamRequest
stream_request = record {
  media_file_id = pos 3;
  play_method = "auto";
  expires_at = record { unix = pos 1800000000; nanoseconds = 5 };
  max_watch_minutes = pos 4294967296;
  max_resolution_height = pos 1080;
  allow_direct_play = true;
  allow_downloads = false;
  disable_seeking = false;
  audit_subject = "";
  watermark_mode = "";
  watermark_text = "";
  watermark_logo_url = "";
}

-- 2^32 minutes are sent as 0.
minted : mint_message {J = ℕ} {E = ℕ} stream_request ≡ ok (scoped_message stream_request)
unfolding mint_message
minted = refl

mint_message-limits_iff_example :
    (((scoped_message stream_request).max_watch_minutes ≡ pos 4294967296)
      ↔ IsInt32 (pos 4294967296))
    × (((scoped_message stream_request).max_resolution_height ≡ pos 1080) ↔ IsInt32 (pos 1080))
mint_message-limits_iff_example =
    mint_message-limits_iff {J = ℕ} {E = ℕ} stream_request (scoped_message stream_request) minted

abbrev media_request : ListLibraryMediaRequest
media_request = record {
  library_ids = [];
  media_types = [];
  query = "";
  genre = "";
  year_min = pos 1990;
  year_max = pos 0;
  sort = "title";
  descending = false;
  page_size = pos 2;
  page_token = "";
}

-- A host whose catalogue has one item and a nil one, and that counts its calls.
abbrev media_answer : LibraryMediaAnswer
media_answer = record {
  items = some (record empty_item { media_id = "m1"; year = pos 1999 }) ∷ none ∷ [];
  next_page_token = "next";
  total_count = pos 5;
}

abbrev media_page : ListLibraryMediaResponse
media_page = page_of media_answer

abbrev media_host : ListLibraryMediaRequestMessage → ℕ → ℕ × Result ℕ LibraryMediaAnswer
media_host r n = (suc n, ok media_answer)

list_library_media-eq-ok_iff_example :
    (m : ListLibraryMediaRequestMessage) × IsMediaMessage media_request m
    × ((a : LibraryMediaAnswer) × (media_host m 3 ≡ (4, ok a)) × IsPage a media_page)
unfolding list_library_media
list_library_media-eq-ok_iff_example =
    (list_library_media-eq-ok_iff media_host media_request 3 4 media_page).0 refl
