-- ===== src/RuntimeHost/PluginCalls/Laws.antt =====
-- Which installation a request reaches, and what an answer must be to be accepted.
use bloem_plugin_sdk.Base.{
  ℕ, ◌^◌, ◌≤◌, ◌<◌, String, Bool, true, false, not, ◌||◌, Option, none, some, List, ltb, str_eq,
  is_empty, length, Result, ok, err, ◌>>=◌, fail_if, wrap, >>-eq-ok_iff, ◌≡◌, refl, sym, ap, ◌∙◌,
  ◌↔◌, arith,
}
use bloem_plugin_sdk.Base.Int.{pos, ltb_ℤ, int32, int32-pos_iff}
use bloem_plugin_sdk.Values.{Any}
use bloem_plugin_sdk.RuntimeHost.InstanceState.{Bytes}
use bloem_plugin_sdk.RuntimeHost.PluginCalls.{
  CallPluginHttpRequest, CallPluginHttpResponse, HttpMessage, CallError, encode_query, http_message,
  CallPluginJsonRequest, max_bytes, decode_body, json_answer,
}

module _ {Q J E : Type 0} (new_struct : List (String × Any) → Result J Q) where
  http_message_id :
      (r : CallPluginHttpRequest) (query : Result (CallError J E) (Option Q))
      (f : Option Q → HttpMessage Q) (message : HttpMessage Q)
      → (query >>= λ q. ok (f q)) ≡ ok message
      → (q : Option Q) × (message ≡ f q)
  http_message_id r (ok q) f message h = (q, cc h)
  http_message_id r (err e) f message h = absurd (cc h)

  -- If CallPluginHTTP accepts a request for an installation with an id that is not negative, the
  -- message that it sends names that installation exactly when the id is below 2^31.
  pub http_message-installation_iff :
      (r : CallPluginHttpRequest) (n : ℕ) (message : HttpMessage Q)
      → r.installation_id ≡ pos n
      → http_message {E = E} new_struct r ≡ ok message
      → (message.installation_id ≡ r.installation_id) ↔ (n < 2 ^ 31)
  unfolding http_message int32
  http_message-installation_iff r n message e h =
      let checked =
        (>>-eq-ok_iff (fail_if (not (ltb_ℤ (pos 0) r.installation_id)) _) _ message).0 h in
      let passed = (>>-eq-ok_iff (fail_if (str_eq r.path "") _) _ message).0 checked.1 in
      let (q, sent) = http_message_id r (encode_query new_struct r.query) _ message passed.1 in
      let id : message.installation_id ≡ int32 (pos n) =
        ap (λ m. m.installation_id) sent ∙ ap int32 e in
      (λ k. (int32-pos_iff n).0 (sym id ∙ k ∙ e), λ k. id ∙ (int32-pos_iff n).1 k ∙ sym e)

ok-unless_iff : {E : Type 0} (b : Bool) (e : E) → (fail_if (not b) e ≡ ok tt) ↔ (b ≡ true)
ok-unless_iff true e = (λ h. refl, λ h. refl)
ok-unless_iff false e = (λ h. cc h, λ h. cc h)

ok-within_iff : {E : Type 0} (m n : ℕ) (e : E) → (fail_if (ltb m n) e ≡ ok tt) ↔ (n ≤ m)
ok-within_iff m n e = ground arith

-- What `Response` points to after a body that was skipped or decoded.
abbrev pub IsDecoded : {D J : Type 0} → (Bytes → Result J D) → Bool → Bytes → Option D → Type 0
IsDecoded unmarshal true body d = d ≡ none
IsDecoded {D} unmarshal false body d = (value : D) × (unmarshal body ≡ ok value) × (d ≡ some value)

module _ {R D J E : Type 0} (marshal : R → Result J Bytes) (unmarshal : Bytes → Result J D) where
  decode_value_iff :
      (answer : Result J D) (wrong : J → CallError J E) (d : Option D)
      → ((wrap wrong answer >>= λ value. ok (some value)) ≡ ok d)
        ↔ ((value : D) × (answer ≡ ok value) × (d ≡ some value))
  decode_value_iff (ok v) wrong d = (λ h. (v, refl, cc h), λ (w, a, b). cc (a, b))
  decode_value_iff (err e) wrong d = (λ h. absurd (cc h), λ (w, a, b). absurd (cc a))

  decode_body_iff :
      (skips : Bool) (body : Bytes) (d : Option D)
      → (decode_body {E = E} marshal unmarshal skips body ≡ ok d) ↔ IsDecoded unmarshal skips body d
  decode_body_iff true body d = (λ h. cc h, λ h. cc h)
  decode_body_iff false body d = decode_value_iff (unmarshal body) _ d

  -- An answer of the other plugin is accepted exactly if its status is below 400, its body is no
  -- longer than the limit, which is 10 MiB unless a positive one is asked for, and the body is either
  -- skipped, since it is empty or no value is wanted, or decodes to the value that is returned.
  pub json_answer-eq-ok_iff :
      (r : CallPluginJsonRequest R) (a : CallPluginHttpResponse) (d : Option D)
      → (json_answer {E = E} marshal unmarshal r a ≡ ok d) ↔ (
          (ltb_ℤ a.status_code (pos 400) ≡ true)
          × (length a.body ≤ max_bytes r.max_response_bytes)
          × IsDecoded unmarshal (not r.has_response || is_empty a.body) a.body d)
  unfolding json_answer
  json_answer-eq-ok_iff r a d =
      let low = ok-unless_iff {E = CallError J E} (ltb_ℤ a.status_code (pos 400)) _ in
      let short =
        ok-within_iff {E = CallError J E} (max_bytes r.max_response_bytes) (length a.body) _ in
      let first = >>-eq-ok_iff (fail_if (not (ltb_ℤ a.status_code (pos 400))) _) _ d in
      let second =
        >>-eq-ok_iff (fail_if (ltb (max_bytes r.max_response_bytes) (length a.body)) _) _ d in
      let decoded = decode_body_iff (not r.has_response || is_empty a.body) a.body d in
      (
        λ h.
            let (x, rest) = first.0 h in
            let (y, last) = second.0 rest in (low.0 x, short.0 y, decoded.0 last),
        λ (x, y, z). first.1 (low.1 x, second.1 (short.1 y, decoded.1 z)),
      )
