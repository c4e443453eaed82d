-- ===== src/RuntimeHost/Streams.antt =====
-- MintScopedStream, ListLibraries, ListInstalledPlugins and SetGlobalConfigEntry of client.go. The
-- host's calls and structpb.NewStruct are parameters; a time is its seconds since 1970 and the
-- nanoseconds behind them.
use bloem_plugin_sdk.Base.{
  ℕ, String, Bool, not, Option, none, some, List, [], str_eq, Result, ok, err, ◌>>=◌, ◌>>◌, fail_if,
  wrap, ◌≡◌, ◌↔◌, sym, ap, ◌∙◌, subst, >>-eq-ok_iff,
}
use bloem_plugin_sdk.Base.Int.{ℤ, pos, ltb_ℤ, int32, IsInt32, int32-IsInt32, int32_of_IsInt32}
use bloem_plugin_sdk.Values.{Any}
use bloem_plugin_sdk.RuntimeHost.Discovery.{InstalledPlugin}

pub record Time : Type 0 where
  pub unix : ℤ
  pub nanoseconds : ℕ

pub record ScopedStreamRequest : Type 0 where
  pub media_file_id : ℤ
  pub play_method : String
  pub expires_at : Time
  pub max_watch_minutes : ℤ
  pub max_resolution_height : ℤ
  pub allow_direct_play : Bool
  pub allow_downloads : Bool
  pub disable_seeking : Bool
  pub audit_subject : String
  pub watermark_mode : String
  pub watermark_text : String
  pub watermark_logo_url : String

-- the message; its id is an int64, as an `int` is
pub record MintScopedStreamRequest : Type 0 where
  pub media_file_id : ℤ
  pub play_method : String
  pub expires_at_unix : ℤ
  pub max_watch_minutes : ℤ
  pub max_resolution_height : ℤ
  pub allow_direct_play : Bool
  pub allow_downloads : Bool
  pub disable_seeking : Bool
  pub audit_subject : String
  pub watermark_mode : String
  pub watermark_text : String
  pub watermark_logo_url : String

pub record MintScopedStreamResponse : Type 0 where
  pub stream_url : String
  pub play_method : String
  pub expires_at_unix : ℤ

pub record ScopedStreamGrant : Type 0 where
  pub stream_url : String
  pub play_method : String
  pub expires_at : Time

pub data StreamError (J E : Type 0) : Type 0 where
  media_file_id_required config_key_required : StreamError J E
  value_not_encoded : J → StreamError J E
  rpc : E → StreamError J E

-- the message `Library`
pub record Library : Type 0 where
  pub id : String
  pub name : String
  pub media_type : String

pub record SetGlobalConfigEntryRequest (Q : Type 0) : Type 0 where
  pub key : String
  pub value : Q

-- a nil map is replaced by an empty one
abbrev pub or_no_entries : Option (List (String × Any)) → List (String × Any)
or_no_entries none = []
or_no_entries (some value) = value

-- What an RPC answers, with the error as the client returns it.
abbrev pub answered : {S J E A : Type 0} → S × Result E A → S × Result (StreamError J E) A
answered (s, err e) = (s, err (rpc e))
answered (s, ok a) = (s, ok a)

-- A call whose message may not be made; then the host is not called.
abbrev pub call_with :
    {S J E M A : Type 0}
    → (M → S → S × Result E A)
    → Result (StreamError J E) M
    → S
    → S × Result (StreamError J E) A
call_with call (err e) s = (s, err e)
call_with call (ok message) s = answered (call message s)

abbrev pub grant_of : MintScopedStreamResponse → ScopedStreamGrant
grant_of r = record {
  stream_url = r.stream_url;
  play_method = r.play_method;
  expires_at = record { unix = r.expires_at_unix; nanoseconds = 0 };
}

abbrev pub granted :
    {S J E : Type 0}
    → S × Result (StreamError J E) MintScopedStreamResponse
    → S × Result (StreamError J E) ScopedStreamGrant
granted (s, r) = (s, r >>= λ a. ok (grant_of a))

abbrev pub scoped_message : ScopedStreamRequest → MintScopedStreamRequest
scoped_message r = record {
  media_file_id = r.media_file_id;
  play_method = r.play_method;
  expires_at_unix = r.expires_at.unix;
  max_watch_minutes = int32 r.max_watch_minutes;
  max_resolution_height = int32 r.max_resolution_height;
  allow_direct_play = r.allow_direct_play;
  allow_downloads = r.allow_downloads;
  disable_seeking = r.disable_seeking;
  audit_subject = r.audit_subject;
  watermark_mode = r.watermark_mode;
  watermark_text = r.watermark_text;
  watermark_logo_url = r.watermark_logo_url;
}

module _ {J E : Type 0} where
  -- `MintScopedStream` up to the call of the host
  unfoldable pub mint_message :
      ScopedStreamRequest → Result (StreamError J E) MintScopedStreamRequest
  unfolding int32
  mint_message r = do
    fail_if (not (ltb_ℤ (pos 0) r.media_file_id)) media_file_id_required
    ok (scoped_message r)

  module _ {S : Type 0}
      (mint : MintScopedStreamRequest → S → S × Result E MintScopedStreamResponse) where
    -- `MintScopedStream`
    unfoldable pub mint_scoped_stream :
        ScopedStreamRequest → S → S × Result (StreamError J E) ScopedStreamGrant
    unfolding mint_message
    mint_scoped_stream r s = granted (call_with mint (mint_message r) s)

-- `ListLibraries` and `ListInstalledPlugins`
unfoldable pub list_libraries :
    {S E : Type 0}
    → (String → S → S × Result E (List (Option Library)))
    → String
    → S
    → S × Result E (List (Option Library))
list_libraries call user_id s = call user_id s

unfoldable pub list_installed_plugins :
    {S E : Type 0}
    → (S → S × Result E (List (Option InstalledPlugin)))
    → S
    → S × Result E (List (Option InstalledPlugin))
list_installed_plugins call s = call s

module _ {Q J E : Type 0} (new_struct : List (String × Any) → Result J Q) where
  -- `SetGlobalConfigEntry` up to the call of the host
  unfoldable pub config_message :
      String
      → Option (List (String × Any))
      → Result (StreamError J E) (SetGlobalConfigEntryRequest Q)
  config_message key value = do
    fail_if (str_eq key "") config_key_required
    pb ← wrap value_not_encoded (new_struct (or_no_entries value))
    ok (record { key = key; value = pb })

  -- `SetGlobalConfigEntry`
  unfoldable pub set_global_config_entry :
      {S : Type 0}
      → (SetGlobalConfigEntryRequest Q → S → S × Result E (Unit {0}))
      → String
      → Option (List (String × Any))
      → S
      → S × Result (StreamError J E) (Unit {0})
  unfolding config_message
  set_global_config_entry call key value s = call_with call (config_message key value) s

int32-fixed_iff : (z : ℤ) → (int32 z ≡ z) ↔ IsInt32 z
int32-fixed_iff z = (λ h. subst IsInt32 h (int32-IsInt32 z), λ h. int32_of_IsInt32 z h)

-- If MintScopedStream accepts a request, the message that it sends limits the minutes that may be
-- watched, and the height of the picture, as the request does exactly when these fit an int32.
pub mint_message-limits_iff :
    {J E : Type 0} (r : ScopedStreamRequest) (message : MintScopedStreamRequest)
    → mint_message {J = J} {E = E} r ≡ ok message
    → ((message.max_watch_minutes ≡ r.max_watch_minutes) ↔ IsInt32 r.max_watch_minutes)
      × ((message.max_resolution_height ≡ r.max_resolution_height)
          ↔ IsInt32 r.max_resolution_height)
unfolding mint_message
mint_message-limits_iff {J} {E} r message h =
    let passed =
      (>>-eq-ok_iff
          (fail_if {E = StreamError J E} (not (ltb_ℤ (pos 0) r.media_file_id))
            media_file_id_required)
          _ message).0
        h in
    let sent : scoped_message r ≡ message = cc (passed.1) in
    let minutes = ap (λ m. m.max_watch_minutes) sent in
    let height = ap (λ m. m.max_resolution_height) sent in
    (
      (λ k. (int32-fixed_iff _).0 (minutes ∙ k), λ k. sym minutes ∙ (int32-fixed_iff _).1 k),
      (λ k. (int32-fixed_iff _).0 (height ∙ k), λ k. sym height ∙ (int32-fixed_iff _).1 k),
    )
