-- ===== src/HttpClient.antt =====
-- pkg/pluginsdk/httpclient/httpclient.go: one JSON request over HTTP. net/http and encoding/json are
-- parameters; contexts and the timeout are left out. A body is the list of its bytes.
pub mod Body
pub mod Laws
mod Tests
use Prim.Native.String.{◌++◌ as append}
use bloem_plugin_sdk.Base.{
  ℕ, ◌*◌, ◌≤◌, String, Bool, true, false, not, ◌||◌, Option, none, some, List, [], ◌∷◌, ◌++◌,
  length, leb, ◌==◌, str_eq, is_empty, is_some, take, drop, insert, Result, ok, err, ◌>>=◌, ◌>>◌,
  fail_if, wrap, if◌then◌else◌,
}
use bloem_plugin_sdk.Base.Int.{ℤ, pos, ltb_ℤ, eqb_ℤ}
use bloem_plugin_sdk.Base.Decimal.{Bytes}
use bloem_plugin_sdk.Text.{codes, trim_space, trim_right}
use bloem_plugin_sdk.Text.Bytes.{trim_bytes}
use bloem_plugin_sdk.Text.Show.{show_int}

unfoldable pub max_response_body : ℕ
max_response_body = 1024 * 1024

-- `H` stands for `*http.Client`.
pub record Client (H : Type 0) : Type 0 where
  pub base_url : String
  pub api_key : String
  pub http_client : H

pub record StatusError : Type 0 where
  pub status_code : ℤ
  pub body : Bytes
  pub message : Bytes

-- `Error` of a `StatusError`
unfoldable pub status_text : StatusError → Bytes
unfolding show_int
status_text e =
    let msg = if is_empty e.message then e.body else e.message in
    let status = codes "httpclient: HTTP " ++ codes (show_int e.status_code) in
    if is_empty msg then status else status ++ (codes ": " ++ msg)

-- `New`; `default` is `defaultHTTPClient`.
unfoldable pub new : {H : Type 0} → H → String → String → Option H → Client H
unfolding trim_space trim_right
new default base_url api_key hc = record {
  base_url = trim_right (λ c. c == b'/') (trim_space base_url);
  api_key = trim_space api_key;
  http_client = elim hc [ none ↦ default | some h ↦ h ];
}

pub record Request : Type 0 where
  pub method : String
  pub url : String
  pub headers : List (String × String)
  pub body : Option Bytes

-- The bytes that still come from a reader, and the error that it then ends with, if not with EOF.
pub record Stream (E : Type 0) : Type 0 where
  pub bytes : Bytes
  pub failure : Option E

pub record Response (E : Type 0) : Type 0 where
  pub status_code : ℤ
  pub body : Stream E

-- `io.EOF`, or another error of a `json.Decoder`
pub data DecodeFailure (J : Type 0) : Type 0 where
  end_of_file : DecodeFailure J
  malformed : J → DecodeFailure J

-- What a `json.Decoder` has read of its reader, and what it has decoded.
pub record Decoded (D J : Type 0) : Type 0 where
  pub consumed : ℕ
  pub value : Result (DecodeFailure J) D

-- `encode` is the encoder for the request's body, and `message` the `message` field of a body that
-- is a JSON object, empty when it is missing.
pub record Json (B D J E : Type 0) : Type 0 where
  pub encode : B → Result J Bytes
  pub decode : Stream E → Decoded D J
  pub message : Bytes → Option Bytes

-- `http.NewRequestWithContext` accepts a method and a URL, or fails; `send` is `Do` of a client.
pub record Transport (H S J E : Type 0) : Type 0 where
  pub accept : String → String → Result J (Unit {0})
  pub send : H → Request → S → S × Result E (Response E)

pub data HttpError (J E : Type 0) : Type 0 where
  base_url_required api_key_required : HttpError J E
  request_not_encoded request_not_created response_not_decoded : J → HttpError J E
  request_failed : E → HttpError J E
  status : StatusError → HttpError J E

-- What a call returns, with the value that it has written to `dest`, and the rest of the body when
-- there was a response.
pub record Outcome (D J E : Type 0) : Type 0 where
  pub result : Result (HttpError J E) (Option D)
  pub left : Option Bytes

-- `io.LimitReader` on a body
abbrev pub limited : {E : Type 0} → ℕ → Stream E → Stream E
limited n s = record {
  bytes = take n s.bytes;
  failure = if leb n (length s.bytes) then none else s.failure;
}

-- `io.Copy(io.Discard, io.LimitReader(…))`
abbrev pub drain : Bytes → Bytes
drain bytes = drop max_response_body bytes

-- A body after a decoder has read from a limited reader on it.
abbrev pub taken : ℕ → Bytes → Bytes
taken consumed bytes =
    if leb consumed max_response_body then drop consumed bytes else drop max_response_body bytes

-- The two headers, and the third of a request with a body.
abbrev pub request_headers : String → Bool → List (String × String)
request_headers api_key has_body =
    let headers = insert "X-Api-Key" api_key (insert "Accept" "application/json" []) in
    if has_body then insert "Content-Type" "application/json" headers else headers

abbrev pub or_trimmed : Option Bytes → Bytes → Bytes
or_trimmed none raw = trim_bytes raw
or_trimmed (some []) raw = trim_bytes raw
or_trimmed (some (c ∷ m)) raw = c ∷ m

-- A status that is neither below 200 nor 300 or more
abbrev pub is_success : ℤ → Bool
is_success code = not (ltb_ℤ code (pos 200) || not (ltb_ℤ code (pos 300)))

module _ {B D J E : Type 0} (json : Json B D J E) where
  -- `parseMessage`
  unfoldable pub parse_message : Bytes → Bytes
  unfolding trim_bytes
  parse_message raw = or_trimmed (json.message raw) raw

  abbrev pub encode_body : Option B → Result (HttpError J E) (Option Bytes)
  encode_body none = ok none
  encode_body (some b) = wrap request_not_encoded (json.encode b) >>= λ bytes. ok (some bytes)

  -- the end of `DoJSON` for a `dest` that is decoded into
  abbrev pub decoded_value : Result (DecodeFailure J) D → Result (HttpError J E) (Option D)
  decoded_value (ok value) = ok (some value)
  decoded_value (err end_of_file) = ok none
  decoded_value (err (malformed e)) = err (response_not_decoded e)

  -- `DoJSON` from the response on
  unfoldable pub handle : Bool → Response E → Outcome D J E
  unfolding parse_message
  handle has_dest r =
      let bytes = r.body.bytes in
      let raw = take max_response_body bytes in
      let decoded = json.decode (limited max_response_body r.body) in
      if not (is_success r.status_code)
      then record {
        result = err (
            status (record {
              status_code = r.status_code;
              body = trim_bytes raw;
              message = parse_message raw;
            }));
        left = some (drain bytes);
      }
      else if not has_dest || eqb_ℤ r.status_code (pos 204)
      then record { result = ok none; left = some (drain bytes) }
      else record {
        result = decoded_value decoded.value;
        left = some (drain (taken decoded.consumed bytes));
      }

  module _ {H S : Type 0} (net : Transport H S J E) where
    -- `DoJSON` up to the call of the client
    unfoldable pub request_of :
        Client H → String → String → Option B → Result (HttpError J E) Request
    unfolding insert
    request_of c method path body = do
      fail_if (str_eq c.base_url "") base_url_required
      fail_if (str_eq c.api_key "") api_key_required
      encoded ← encode_body body
      wrap request_not_created (net.accept method (append c.base_url path))
      ok (record {
        method = method;
        url = append c.base_url path;
        headers = request_headers c.api_key (is_some body);
        body = encoded;
      })

    abbrev pub received : Bool → S × Result E (Response E) → S × Outcome D J E
    received has_dest (s, err e) = (s, record { result = err (request_failed e); left = none })
    received has_dest (s, ok r) = (s, handle has_dest r)

    abbrev pub sent : H → Bool → Result (HttpError J E) Request → S → S × Outcome D J E
    sent h has_dest (err e) s = (s, record { result = err e; left = none })
    sent h has_dest (ok request) s = received has_dest (net.send h request s)

    -- `DoJSON`; `has_dest` tells whether `dest` is not nil.
    unfoldable pub do_json : Client H → String → String → Option B → Bool → S → S × Outcome D J E
    unfolding request_of handle
    do_json c method path body has_dest s =
        sent c.http_client has_dest (request_of c method path body) s

    -- `GetJSON` and `PostJSON`
    unfoldable pub get_json : Client H → String → Bool → S → S × Outcome D J E
    unfolding do_json
    get_json c path has_dest s = do_json c "GET" path none has_dest s

    unfoldable pub post_json : Client H → String → Option B → Bool → S → S × Outcome D J E
    unfolding do_json
    post_json c path body has_dest s = do_json c "POST" path body has_dest s
