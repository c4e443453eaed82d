-- ===== src/RuntimeHost/PluginCalls/Json.antt =====
-- The whole of CallPluginJSON.
use bloem_plugin_sdk.Base.{
  ◌≤◌, String, true, not, ◌||◌, Option, List, is_empty, length, Result, ok, err, ◌≡◌, refl, sym,
  subst, ap, ◌∙◌, ◌↔◌,
}
use bloem_plugin_sdk.Base.Int.{pos, ltb_ℤ}
use bloem_plugin_sdk.Values.{Any}
use bloem_plugin_sdk.RuntimeHost.InstanceState.{Bytes}
use bloem_plugin_sdk.RuntimeHost.PluginCalls.{
  CallPluginHttpRequest, CallPluginHttpResponse, HttpMessage, CallError, http_message, answered,
  call_with, call_plugin_http, CallPluginJsonRequest, json_request, json_answer, finish,
  request_with, call_plugin_json,
}
use bloem_plugin_sdk.RuntimeHost.PluginCalls.Sent.{
  IsSent, request_of, limit, limit_lem, json_request-IsSent, http_message-of_sent,
  json_request-of_sent,
}
use bloem_plugin_sdk.RuntimeHost.PluginCalls.Laws.{IsDecoded, json_answer-eq-ok_iff}

pair_eq : {A B : Type 0} {a c : A} {b d : B} → a ≡ c → b ≡ d → ◌≡◌ {A = A × B} (a, b) (c, d)
pair_eq e f = cc (e, f)

ok_eq : {E A : Type 0} {a b : A} → ◌≡◌ {A = Result E A} (ok a) (ok b) → a ≡ b
ok_eq h = cc h

module _ {R D J E Q S : Type 0} (marshal : R → Result J Bytes) (unmarshal : Bytes → Result J D)
    (new_struct : List (String × Any) → Result J Q)
    (call : HttpMessage Q → S → S × Result E CallPluginHttpResponse) where
  answered_iff :
      (x : S × Result E CallPluginHttpResponse) (s' : S) (a : CallPluginHttpResponse)
      → (answered {J = J} new_struct call x ≡ (s', ok a)) ↔ (x ≡ (s', ok a))
  answered_iff (s, err e) s' a =
      (λ h. absurd (cc (ap (λ p. p.1) h)), λ h. absurd (cc (ap (λ p. p.1) h)))
  answered_iff (s, ok b) s' a = (
    λ h. pair_eq (ap (λ p. p.0) h) (ap ok (ok_eq (ap (λ p. p.1) h))),
    λ h. pair_eq (ap (λ p. p.0) h) (ap ok (ok_eq (ap (λ p. p.1) h))),
  )

  call_with_iff :
      (m : Result (CallError J E) (HttpMessage Q)) (s s' : S) (a : CallPluginHttpResponse)
      → (call_with new_struct call m s ≡ (s', ok a))
        ↔ ((message : HttpMessage Q) × (m ≡ ok message) × (call message s ≡ (s', ok a)))
  call_with_iff (err e) s s' a = (λ h. absurd (cc (ap (λ p. p.1) h)), λ (m, x, y). absurd (cc x))
  call_with_iff (ok message) s s' a = (
    λ h. (message, refl, (answered_iff (call message s) s' a).0 h),
    λ (m, x, y). (answered_iff (call message s) s' a).1 (ap (λ k. call k s) (ok_eq x) ∙ y),
  )

  finish_iff :
      (r : CallPluginJsonRequest R) (x : S × Result (CallError J E) CallPluginHttpResponse) (s' : S)
      (d : Option D)
      → (finish marshal unmarshal new_struct call r x ≡ (s', ok d)) ↔ (
          (a : CallPluginHttpResponse) × (x ≡ (s', ok a))
          × (json_answer {E = E} marshal unmarshal r a ≡ ok d))
  finish_iff r (s, err e) s' d =
      (λ h. absurd (cc (ap (λ p. p.1) h)), λ (a, x, y). absurd (cc (ap (λ p. p.1) x)))
  finish_iff r (s, ok a) s' d = (
    λ h. (a, ap (λ t. (t, ok a)) (ap (λ p. p.0) h), ap (λ p. p.1) h),
    λ (b, x, y).
        pair_eq (ap (λ p. p.0) x)
          (ap (json_answer {E = E} marshal unmarshal r) (ok_eq (ap (λ p. p.1) x)) ∙ y),
  )

  -- What CallPluginJSON does when it succeeds: a message for the request is sent, and the answer is
  -- accepted.
  pub record Succeeds (r : CallPluginJsonRequest R) (s s' : S) (d : Option D) : Type 0 where
    pub message : HttpMessage Q
    pub sent : IsSent marshal new_struct r message
    pub answer : CallPluginHttpResponse
    pub called : call message s ≡ (s', ok answer)
    pub status : ltb_ℤ answer.status_code (pos 400) ≡ true
    pub short : length answer.body ≤ limit r.max_response_bytes
    pub decoded : IsDecoded unmarshal (not r.has_response || is_empty answer.body) answer.body d

  request_with_iff :
      (r : CallPluginJsonRequest R) (m : Result (CallError J E) CallPluginHttpRequest) (s s' : S)
      (d : Option D)
      → (request_with marshal unmarshal new_struct call r m s ≡ (s', ok d)) ↔ (
          (h : CallPluginHttpRequest) × (m ≡ ok h)
          × (finish marshal unmarshal new_struct call r (call_plugin_http new_struct call h s)
              ≡ (s', ok d)))
  request_with_iff r (err e) s s' d =
      (λ h. absurd (cc (ap (λ p. p.1) h)), λ (h, x, y). absurd (cc x))
  request_with_iff r (ok h) s s' d = (
    λ k. (h, refl, k),
    λ (k, x, y).
        ap (λ k. finish marshal unmarshal new_struct call r (call_plugin_http new_struct call k s))
          (ok_eq x)
        ∙ y,
  )

  -- CallPluginJSON succeeds with a value exactly if the installation's id is positive, the path is
  -- not empty, and the host answers a message with the id as an int32 value, the path, the given
  -- method, or else POST with a request and GET without, the given headers with Accept, and with a
  -- request Content-Type, set, the request encoded as its body, and the query encoded unless it is
  -- empty; the answer's status is below 400, its body is within the limit, which is 10 MiB unless a
  -- positive one is given; and the value is what the body decodes to, or none since the body is empty
  -- or no value is wanted.
  pub call_plugin_json-eq-ok_iff :
      (r : CallPluginJsonRequest R) (s s' : S) (d : Option D)
      → (call_plugin_json marshal unmarshal new_struct call r s ≡ (s', ok d)) ↔ Succeeds r s s' d
  unfolding call_plugin_json call_plugin_http
  call_plugin_json-eq-ok_iff r s s' d =
      let with = request_with_iff r (json_request marshal unmarshal r) s s' d in
      (
        λ k.
            let (h, x, y) = with.0 k in
            let (a, z, w) = (finish_iff r (call_plugin_http new_struct call h s) s' d).0 y in
            let (message, u, v) = (call_with_iff (http_message new_struct h) s s' a).0 z in
            let (low, short, decoded) = (json_answer-eq-ok_iff marshal unmarshal r a d).0 w in
            record {
              message = message;
              sent = json_request-IsSent marshal unmarshal new_struct r h message x u;
              answer = a;
              called = v;
              status = low;
              short = subst (λ n. length a.body ≤ n) (limit_lem r.max_response_bytes) short;
              decoded = decoded;
            },
        λ k.
            let h = request_of r k.message.body in
            let x = json_request-of_sent {E = E} marshal unmarshal new_struct r k.message k.sent in
            let u = http_message-of_sent {E = E} marshal unmarshal new_struct r k.message k.sent in
            let short =
              subst (λ n. length k.answer.body ≤ n) (sym (limit_lem r.max_response_bytes))
                k.short in
            let w =
              (json_answer-eq-ok_iff {E = E} marshal unmarshal r k.answer d).1
                (k.status, short, k.decoded) in
            let z =
              (call_with_iff (http_message new_struct h) s s' k.answer).1
                (k.message, u, k.called) in
            with.1
              (h, x, (finish_iff r (call_plugin_http new_struct call h s) s' d).1 (k.answer, z, w)),
      )
