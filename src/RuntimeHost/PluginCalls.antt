-- ===== src/RuntimeHost/PluginCalls.antt =====
-- CallPluginHTTP of client.go and call_json.go: HTTP requests to another installed plugin by way of
-- the host. The host, structpb.NewStruct and encoding/json are parameters.
pub mod Laws
mod Tests
pub mod Json
pub mod Sent
use bloem_plugin_sdk.Base.{
  ℕ, ◌*◌, String, Bool, true, false, not, ◌||◌, Option, none, some, List, [], ◌∷◌, ltb, leb, str_eq,
  is_empty, length, insert, Result, ok, err, ◌>>=◌, ◌>>◌, fail_if, wrap, if◌then◌else◌, is_some,
}
use bloem_plugin_sdk.Base.Int.{ℤ, pos, negsuc, pos_part, ltb_ℤ, int32}
use bloem_plugin_sdk.RuntimeHost.InstanceState.{Bytes}
use bloem_plugin_sdk.Values.{Any}

abbrev pub Headers : Type 0
Headers = List (String × String)

pub record CallPluginHttpRequest : Type 0 where
  pub installation_id : ℤ
  pub method : String
  pub path : String
  pub headers : Headers
  pub body : Bytes
  pub query : List (String × Any)

pub record CallPluginHttpResponse : Type 0 where
  pub status_code : ℤ
  pub headers : Headers
  pub body : Bytes

-- the message that is sent, with a `structpb.Struct` of the parameter's type
pub record HttpMessage (Q : Type 0) : Type 0 where
  pub installation_id : ℤ
  pub method : String
  pub path : String
  pub headers : Headers
  pub body : Bytes
  pub query : Option Q

pub data CallError (J E : Type 0) : Type 0 where
  installation_id_required path_required : CallError J E
  query_not_encoded request_not_encoded response_not_decoded : J → CallError J E
  rpc : E → CallError J E
  http_status : ℤ → Bytes → CallError J E
  response_too_long : ℤ → CallError J E

abbrev pub or_get : String → String
or_get method = if str_eq method "" then "GET" else method

module _ {Q J E : Type 0} (new_struct : List (String × Any) → Result J Q) where
  abbrev pub encode_query : List (String × Any) → Result (CallError J E) (Option Q)
  encode_query [] = ok none
  encode_query (q ∷ qs) = do query ← wrap query_not_encoded (new_struct (q ∷ qs)); ok (some query)

  -- `CallPluginHTTP` up to the call of the host
  unfoldable pub http_message : CallPluginHttpRequest → Result (CallError J E) (HttpMessage Q)
  unfolding int32
  http_message r = do
    fail_if (not (ltb_ℤ (pos 0) r.installation_id)) installation_id_required
    fail_if (str_eq r.path "") path_required
    query ← encode_query r.query
    ok (record {
      installation_id = int32 r.installation_id;
      method = or_get r.method;
      path = r.path;
      headers = r.headers;
      body = r.body;
      query = query;
    })

  module _ {S : Type 0} (call : HttpMessage Q → S → S × Result E CallPluginHttpResponse) where
    abbrev pub answered :
        S × Result E CallPluginHttpResponse → S × Result (CallError J E) CallPluginHttpResponse
    answered (s, err e) = (s, err (rpc e))
    answered (s, ok a) = (s, ok a)

    abbrev pub call_with :
        Result (CallError J E) (HttpMessage Q)
        → S
        → S × Result (CallError J E) CallPluginHttpResponse
    call_with (err e) s = (s, err e)
    call_with (ok message) s = answered (call message s)

    -- `CallPluginHTTP`
    unfoldable pub call_plugin_http :
        CallPluginHttpRequest → S → S × Result (CallError J E) CallPluginHttpResponse
    unfolding http_message
    call_plugin_http r s = call_with (http_message r) s

-- `Request` and `Response` are nil or values of the parameters' types.
pub record CallPluginJsonRequest (R : Type 0) : Type 0 where
  pub installation_id : ℤ
  pub method : String
  pub path : String
  pub headers : Headers
  pub query : List (String × Any)
  pub request : Option R
  pub has_response : Bool
  pub max_response_bytes : ℤ

abbrev pub default_max_plugin_json_response_bytes : ℕ
default_max_plugin_json_response_bytes = 10 * 1024 * 1024

abbrev pub json_method : Bool → String → String
json_method has_request method =
    if str_eq method "" then (if has_request then "POST" else "GET") else method

-- the limit in bytes
abbrev pub max_bytes : ℤ → ℕ
max_bytes max =
    if not (ltb_ℤ (pos 0) max) then default_max_plugin_json_response_bytes else pos_part max

abbrev pub json_headers : Bool → Headers → Headers
json_headers has_request headers =
    let accepting = insert "Accept" "application/json" headers in
    if has_request then insert "Content-Type" "application/json" accepting else accepting

module _ {R D J E : Type 0} (marshal : R → Result J Bytes) (unmarshal : Bytes → Result J D) where
  abbrev pub encode_body : Option R → Result (CallError J E) Bytes
  encode_body none = ok []
  encode_body (some r) = wrap request_not_encoded (marshal r)

  -- `CallPluginJSON` up to the call of `CallPluginHTTP`
  unfoldable pub json_request :
      CallPluginJsonRequest R → Result (CallError J E) CallPluginHttpRequest
  unfolding insert
  json_request r = do
    body ← encode_body r.request
    ok (record {
      installation_id = r.installation_id;
      method = json_method (is_some r.request) r.method;
      path = r.path;
      headers = json_headers (is_some r.request) r.headers;
      body = body;
      query = r.query;
    })

  -- the value that `Response` then points to, if it is written
  abbrev pub decode_body : Bool → Bytes → Result (CallError J E) (Option D)
  decode_body skips body =
      if skips
      then ok none
      else (wrap response_not_decoded (unmarshal body) >>= λ value. ok (some value))

  -- `CallPluginJSON` from the answer on
  unfoldable pub json_answer :
      CallPluginJsonRequest R → CallPluginHttpResponse → Result (CallError J E) (Option D)
  json_answer r a = do
    fail_if (not (ltb_ℤ a.status_code (pos 400))) (http_status a.status_code a.body)
    fail_if (ltb (max_bytes r.max_response_bytes) (length a.body))
        (response_too_long (pos (max_bytes r.max_response_bytes)))
    decode_body (not r.has_response || is_empty a.body) a.body

  module _ {Q S : Type 0} (new_struct : List (String × Any) → Result J Q)
      (call : HttpMessage Q → S → S × Result E CallPluginHttpResponse) where
    abbrev pub finish :
        CallPluginJsonRequest R
        → S × Result (CallError J E) CallPluginHttpResponse
        → S × Result (CallError J E) (Option D)
    finish r (s, err e) = (s, err e)
    finish r (s, ok a) = (s, json_answer r a)

    abbrev pub request_with :
        CallPluginJsonRequest R
        → Result (CallError J E) CallPluginHttpRequest
        → S
        → S × Result (CallError J E) (Option D)
    request_with r (err e) s = (s, err e)
    request_with r (ok h) s = finish r (call_plugin_http new_struct call h s)

    -- `CallPluginJSON`
    unfoldable pub call_plugin_json :
        CallPluginJsonRequest R → S → S × Result (CallError J E) (Option D)
    unfolding json_request json_answer call_plugin_http
    call_plugin_json r s = request_with r (json_request r) s
