-- ===== src/HttpClient/Laws.antt =====
-- When a call succeeds, and how much it reads.
use Prim.Native.String.{◌++◌ as append}
use bloem_plugin_sdk.Base.{
  ◌+◌, ◌*◌, ◌≤◌, String, Bool, true, false, not, ◌||◌, Option, none, some, [], ◌∷◌, length, str_eq,
  is_some, insert, Result, ok, err, fail_if, wrap, if◌then◌else◌, ◌≡◌, refl, sym, ap, ◌∙◌, ◌↔◌, ◌≢◌,
  inl, inr, arith, Bool-cases, named_iff, fail_if-eq-ok_iff, >>=-eq-ok, wrap-eq-ok_iff,
  >>-eq-ok_iff,
}
use bloem_plugin_sdk.Base.Int.{ℤ, pos, negsuc, eqb_ℤ, ◌≤ℤ◌}
use bloem_plugin_sdk.Base.Decimal.{Bytes}
use bloem_plugin_sdk.HttpClient.{
  max_response_body, Client, Request, Response, DecodeFailure, end_of_file, malformed, Json,
  Transport, HttpError, base_url_required, api_key_required, request_not_created, limited,
  request_headers, is_success, encode_body, decoded_value, handle, request_of, received, sent,
  do_json, Outcome,
}
use bloem_plugin_sdk.HttpClient.Body.{handle_reads}

-- A 2xx status
abbrev pub IsSuccess : ℤ → Type 0
IsSuccess code = (pos 200 ≤ℤ code) × (code ≤ℤ pos 299)

is_success_iff : (code : ℤ) → (is_success code ≡ true) ↔ IsSuccess code
is_success_iff (pos n) = ground arith
is_success_iff (negsuc n) = ground arith

-- What `dest` then holds, if it is written: nothing is decoded when the value is not wanted or the
-- status is 204, and an empty body leaves it as it was.
abbrev pub IsWritten : {D J : Type 0} → Bool → Result (DecodeFailure J) D → Option D → Type 0
IsWritten true decoded d = d ≡ none
IsWritten false (ok value) d = d ≡ some value
IsWritten false (err end_of_file) d = d ≡ none
IsWritten false (err (malformed e)) d = ⊥

module _ {B D J E : Type 0} (json : Json B D J E) where
  abbrev skips : Bool → ℤ → Bool
  skips has_dest code = not has_dest || eqb_ℤ code (pos 204)

  -- The response is accepted, and `d` is what is written.
  abbrev pub IsAccepted : Bool → Response E → Option D → Type 0
  IsAccepted has_dest r d =
      IsSuccess r.status_code
      × IsWritten (skips has_dest r.status_code)
          (json.decode (limited max_response_body r.body)).value d

  decoded_value_iff :
      (v : Result (DecodeFailure J) D) (d : Option D)
      → (decoded_value json v ≡ ok d) ↔ IsWritten false v d
  decoded_value_iff (ok v) d = (λ h. cc h, λ h. cc h)
  decoded_value_iff (err end_of_file) d = (λ h. cc h, λ h. cc h)
  decoded_value_iff (err (malformed e)) d = (λ h. cc h, λ h. absurd h)

  handle-eq-ok_iff :
      (has_dest : Bool) (r : Response E) (d : Option D)
      → ((handle json has_dest r).result ≡ ok d) ↔ IsAccepted has_dest r d
  unfolding handle
  handle-eq-ok_iff has_dest r d = elim (Bool-cases (is_success r.status_code)) [
    | inr e ↦
        (λ h. absurd (cc (rw e at h)), λ h. absurd (cc ((is_success_iff r.status_code).1 h.0)))
    | inl e ↦ elim (Bool-cases (skips has_dest r.status_code)) [
      | inl k ↦ rw (e, k) (λ h. ((is_success_iff r.status_code).0 e, cc h), λ h. cc (h.1))
      | inr k ↦
          rw (e, k)
            (
              λ h. ((is_success_iff r.status_code).0 e, (decoded_value_iff _ d).0 h),
              λ h. (decoded_value_iff _ d).1 h.1,
            )
    ]
  ]

  module _ {H S : Type 0} (net : Transport H S J E) (c : Client H) (method path : String) where
    -- The request that is sent for a body, which may be nil.
    pub record IsRequest (body : Option B) (request : Request) : Type 0 where
      pub base : c.base_url ≢ ""
      pub key : c.api_key ≢ ""
      pub encoded : encode_body {E = E} json body ≡ ok request.body
      pub accepted : net.accept method (append c.base_url path) ≡ ok tt
      pub method_line : request.method ≡ method
      pub url : request.url ≡ append c.base_url path
      pub headers :
          request.headers
          ≡ ("Accept", "application/json")
            ∷ ("X-Api-Key", c.api_key)
            ∷ (if is_some body then ("Content-Type", "application/json") ∷ [] else [])

    abbrev built : Bool → Option Bytes → Request
    built has_body bytes = record {
      method = method;
      url = append c.base_url path;
      headers = request_headers c.api_key has_body;
      body = bytes;
    }

    request_headers_lem :
        (has_body : Bool)
        → request_headers c.api_key has_body
          ≡ ("Accept", "application/json")
            ∷ ("X-Api-Key", c.api_key)
            ∷ (if has_body then ("Content-Type", "application/json") ∷ [] else [])
    unfolding insert
    request_headers_lem true = refl
    request_headers_lem false = refl

    request_of-eq-ok_iff :
        (body : Option B) (request : Request)
        → (request_of json net c method path body ≡ ok request) ↔ IsRequest body request
    unfolding request_of
    request_of-eq-ok_iff body request = (
      λ h.
          let (base, checked) =
            (>>-eq-ok_iff (fail_if (str_eq c.base_url "") base_url_required) _ request).0 h in
          let (key, passed) =
            (>>-eq-ok_iff (fail_if (str_eq c.api_key "") api_key_required) _ request).0 checked in
          let (bytes, encoded, rest) = >>=-eq-ok (encode_body json body) _ request passed in
          let (accepted, done) =
            (>>-eq-ok_iff (wrap request_not_created (net.accept method (append c.base_url path))) _
                request).0
              rest in
          let e : built (is_some body) bytes ≡ request = cc done in
          record {
            base = (named_iff c.base_url).0 ((fail_if-eq-ok_iff _ _).0 base);
            key = (named_iff c.api_key).0 ((fail_if-eq-ok_iff _ _).0 key);
            encoded = encoded ∙ ap (λ r. ok r.body) e;
            accepted = (wrap-eq-ok_iff _ _ _).0 accepted;
            method_line = sym (ap (λ r. r.method) e);
            url = sym (ap (λ r. r.url) e);
            headers = sym (ap (λ r. r.headers) e) ∙ request_headers_lem (is_some body);
          },
      λ h.
          let headers = h.headers ∙ sym (request_headers_lem (is_some body)) in
          let e : built (is_some body) request.body ≡ request = λ i. record {
            method = sym h.method_line i;
            url = sym h.url i;
            headers = sym headers i;
            body = request.body;
          } in
          rw ((named_iff c.base_url).1 h.base, (named_iff c.api_key).1 h.key, h.encoded, h.accepted)
            (ap ok e),
    )

    received-eq-ok_iff :
        (has_dest : Bool) (answer : S × Result E (Response E)) (s' : S) (d : Option D)
        → let out = received json net has_dest answer in
          ((out.0 ≡ s') × (out.1.result ≡ ok d))
          ↔ ((r : Response E) × (answer ≡ (s', ok r)) × ((handle json has_dest r).result ≡ ok d))
    received-eq-ok_iff has_dest (t, err e) s' d =
        (λ h. absurd (cc (h.1)), λ (r, e, k). absurd (cc (ap (λ a. a.1) e)))
    received-eq-ok_iff has_dest (t, ok r) s' d = (
      λ h. (r, (λ i. (h.0 i, ok r)), h.1),
      λ (r', e, k).
          let same : r ≡ r' = cc (ap (λ a. a.1) e) in
          (ap (λ a. a.0) e, ap (λ a. (handle json has_dest a).result) same ∙ k),
    )

    sent-eq-ok_iff :
        (h : H) (has_dest : Bool) (q : Result (HttpError J E) Request) (s s' : S) (d : Option D)
        → let out = sent json net h has_dest q s in
          ((out.0 ≡ s') × (out.1.result ≡ ok d)) ↔ (
            (request : Request) × (q ≡ ok request)
            × (r : Response E) × (net.send h request s ≡ (s', ok r))
            × ((handle json has_dest r).result ≡ ok d))
    sent-eq-ok_iff h has_dest (err e) s s' d =
        (λ k. absurd (cc (k.1)), λ (request, e, r, a, done). absurd (cc e))
    sent-eq-ok_iff h has_dest (ok request) s s' d =
        let answered = received-eq-ok_iff has_dest (net.send h request s) s' d in
        (
          λ k. let (r, e, done) = answered.0 k in (request, refl, r, e, done),
          λ (request', e, r, a, done).
              let same : request ≡ request' = cc e in
              answered.1 (r, ap (λ q. net.send h q s) same ∙ a, done),
        )

    -- DoJSON succeeds exactly when the base URL and the key of the client are not empty, the body is
    -- encoded and the URL accepted, the request with its headers is answered with a 2xx status, and
    -- the body is decoded, is empty, or is not wanted since `dest` is nil or the status 204. Only in
    -- the first case `dest` is written, with the value decoded from the first MiB.
    pub do_json-eq-ok_iff :
        (body : Option B) (has_dest : Bool) (s s' : S) (d : Option D)
        → let out = do_json json net c method path body has_dest s in
          ((out.0 ≡ s') × (out.1.result ≡ ok d)) ↔ (
            (request : Request) × IsRequest body request
            × (r : Response E) × (net.send c.http_client request s ≡ (s', ok r))
            × IsAccepted has_dest r d)
    unfolding do_json
    do_json-eq-ok_iff body has_dest s s' d =
        let whole =
          sent-eq-ok_iff c.http_client has_dest (request_of json net c method path body) s s' d in
        (
          λ h.
              let (request, built, r, answered, e) = whole.0 h in
              (
                request,
                (request_of-eq-ok_iff body request).0 built,
                r,
                answered,
                (handle-eq-ok_iff has_dest r d).0 e,
              ),
          λ (request, built, r, answered, e). whole.1 (
            request,
            (request_of-eq-ok_iff body request).1 built,
            r,
            answered,
            (handle-eq-ok_iff has_dest r d).1 e,
          ),
        )

    sent-of_answer :
        (has_dest : Bool) (q : Result (HttpError J E) Request) (request : Request) (s s' : S)
        (r : Response E)
        → q ≡ ok request
        → net.send c.http_client request s ≡ (s', ok r)
        → sent json net c.http_client has_dest q s ≡ (s', handle json has_dest r)
    sent-of_answer has_dest q request s s' r e a = rw (e, a) refl

    -- Of the response to its request, whatever the status and whether or not the body can be decoded,
    -- DoJSON reads at most 2 MiB of the body, and a body of at most 1 MiB to its end.
    pub do_json_reads :
        (body : Option B) (has_dest : Bool) (request : Request) (s s' : S) (r : Response E)
        → IsRequest body request
        → net.send c.http_client request s ≡ (s', ok r)
        → (rest : Bytes) × ((do_json json net c method path body has_dest s).1.left ≡ some rest)
          × (length r.body.bytes ≤ length rest + 2 * max_response_body)
          × (length r.body.bytes ≤ max_response_body → rest ≡ [])
    unfolding do_json
    do_json_reads body has_dest request s s' r h answered =
        let (rest, left, most, all) = handle_reads json has_dest r in
        let e =
          sent-of_answer has_dest (request_of json net c method path body) request s s' r
            ((request_of-eq-ok_iff body request).1 h) answered in
        (rest, ap (λ (o : S × Outcome D J E). o.1.left) e ∙ left, most, all)
