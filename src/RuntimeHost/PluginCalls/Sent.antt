-- ===== src/RuntimeHost/PluginCalls/Sent.antt =====
-- The message that CallPluginJSON of call_json.go has sent, said field by field.
use bloem_plugin_sdk.Base.{
  ℕ, zero, suc, String, true, false, not, Option, none, some, List, [], ◌∷◌, str_eq, is_some,
  insert, Result, ok, fail_if, wrap-eq-ok_iff, >>=-eq-ok, >>-eq-ok_iff, fail_if-eq-ok_iff,
  named_iff, eq_iff, Bool-cases, ◌≡◌, ◌≢◌, ◌⊎◌, inl, inr, refl, sym, ap, ◌∙◌, subst, arith,
}
use bloem_plugin_sdk.Base.Int.{ℤ, pos, negsuc, ltb_ℤ, int32}
use bloem_plugin_sdk.Values.{Any}
use bloem_plugin_sdk.RuntimeHost.InstanceState.{Bytes}
use bloem_plugin_sdk.RuntimeHost.PluginCalls.{
  Headers, CallPluginHttpRequest, HttpMessage, or_get, encode_query, http_message,
  CallPluginJsonRequest, json_method, json_headers, max_bytes, encode_body, json_request,
}

-- the method: the one that is given, or else POST with a request and GET without
abbrev pub IsMethod : {R : Type 0} → Option R → String → String → Type 0
IsMethod request given sent =
    ((given ≢ "") × (sent ≡ given))
    ⊎ ((given ≡ "") × (is_some request ≡ true) × (sent ≡ "POST"))
    ⊎ ((given ≡ "") × (is_some request ≡ false) × (sent ≡ "GET"))

-- the headers, as a map in which the given ones may be replaced
abbrev pub headers_for : {R : Type 0} → Option R → Headers → Headers
headers_for none given = insert "Accept" "application/json" given
headers_for (some x) given =
    insert "Content-Type" "application/json" (insert "Accept" "application/json" given)

abbrev pub IsBody : {R J : Type 0} → (R → Result J Bytes) → Option R → Bytes → Type 0
IsBody marshal none body = body ≡ []
IsBody marshal (some x) body = marshal x ≡ ok body

abbrev pub IsQuery :
    {Q J : Type 0} → (List (String × Any) → Result J Q) → List (String × Any) → Option Q → Type 0
IsQuery new_struct [] query = query ≡ none
IsQuery {Q} new_struct (e ∷ es) query =
    (struct : Q) × (new_struct (e ∷ es) ≡ ok struct) × (query ≡ some struct)

-- the most bytes that an answer may have: 10 MiB, unless a positive limit is given
abbrev pub limit : ℤ → ℕ
limit (pos zero) = 10485760
limit (pos (suc n)) = suc n
limit (negsuc n) = 10485760

pub limit_lem : (max : ℤ) → max_bytes max ≡ limit max
limit_lem (pos zero) = refl
limit_lem (pos (suc n)) = let e : ltb_ℤ (pos 0) (pos (suc n)) ≡ true = ground arith in rw e refl
limit_lem (negsuc n) = let e : ltb_ℤ (pos 0) (negsuc n) ≡ false = ground arith in rw e refl

or_get-IsMethod :
    {R : Type 0} (request : Option R) (given : String)
    → IsMethod request given (or_get (json_method (is_some request) given))
or_get-IsMethod none given = elim (Bool-cases (str_eq given "")) [
  | inl e ↦ rw e (inr (inr ((eq_iff given "").0 e, refl, refl)))
  | inr e ↦ rw (e, e) (inl ((named_iff given).0 e, refl))
]
or_get-IsMethod (some x) given = elim (Bool-cases (str_eq given "")) [
  | inl e ↦ rw e (inr (inl ((eq_iff given "").0 e, refl, refl)))
  | inr e ↦ rw (e, e) (inl ((named_iff given).0 e, refl))
]

method_unique :
    {R : Type 0} (request : Option R) (given sent other : String)
    → IsMethod request given sent
    → IsMethod request given other
    → sent ≡ other
method_unique request given sent other (inl (n, e)) (inl (m, f)) = cc (e, f)
method_unique request given sent other (inl (n, e)) (inr (inl (m, g, f))) = absurd (n m)
method_unique request given sent other (inl (n, e)) (inr (inr (m, g, f))) = absurd (n m)
method_unique request given sent other (inr (inl (n, h, e))) (inl (m, f)) = absurd (m n)
method_unique request given sent other (inr (inr (n, h, e))) (inl (m, f)) = absurd (m n)
method_unique request given sent other (inr (inl (n, h, e))) (inr (inl (m, g, f))) = cc (e, f)
method_unique request given sent other (inr (inl (n, h, e))) (inr (inr (m, g, f))) =
    absurd (cc (h, g))
method_unique request given sent other (inr (inr (n, h, e))) (inr (inl (m, g, f))) =
    absurd (cc (h, g))
method_unique request given sent other (inr (inr (n, h, e))) (inr (inr (m, g, f))) = cc (e, f)

headers_lem :
    {R : Type 0} (request : Option R) (given : Headers)
    → json_headers (is_some request) given ≡ headers_for request given
headers_lem none given = refl
headers_lem (some x) given = refl

abbrev pub request_of : {R : Type 0} → CallPluginJsonRequest R → Bytes → CallPluginHttpRequest
request_of r body = record {
  installation_id = r.installation_id;
  method = json_method (is_some r.request) r.method;
  path = r.path;
  headers = json_headers (is_some r.request) r.headers;
  body = body;
  query = r.query;
}

abbrev message_of : {Q : Type 0} → CallPluginHttpRequest → Option Q → HttpMessage Q
message_of h query = record {
  installation_id = int32 h.installation_id;
  method = or_get h.method;
  path = h.path;
  headers = h.headers;
  body = h.body;
  query = query;
}

module _ {R J Q : Type 0} (marshal : R → Result J Bytes)
    (new_struct : List (String × Any) → Result J Q) where
  -- What is sent for a request, which names an installation and a path.
  pub record IsSent (r : CallPluginJsonRequest R) (m : HttpMessage Q) : Type 0 where
    pub positive : ltb_ℤ (pos 0) r.installation_id ≡ true
    pub named : r.path ≢ ""
    pub installation_id : m.installation_id ≡ int32 r.installation_id
    pub method : IsMethod r.request r.method m.method
    pub path : m.path ≡ r.path
    pub headers : m.headers ≡ headers_for r.request r.headers
    pub body : IsBody marshal r.request m.body
    pub query : IsQuery new_struct r.query m.query

  message_unique :
      (r : CallPluginJsonRequest R) (m : HttpMessage Q)
      → IsSent r m
      → message_of (request_of r m.body) m.query ≡ m
  message_unique r m s =
      let method =
        method_unique r.request r.method _ m.method (or_get-IsMethod r.request r.method) s.method in
      let headers = headers_lem r.request r.headers ∙ sym s.headers in
      λ i. record {
        installation_id = sym s.installation_id i;
        method = method i;
        path = sym s.path i;
        headers = headers i;
        body = m.body;
        query = m.query;
      }

module _ {R D J E Q : Type 0} (marshal : R → Result J Bytes) (unmarshal : Bytes → Result J D)
    (new_struct : List (String × Any) → Result J Q) where
  encode_body-IsBody :
      (request : Option R) (body : Bytes)
      → encode_body {D = D} {E = E} marshal unmarshal request ≡ ok body
      → IsBody marshal request body
  encode_body-IsBody none body h = cc h
  encode_body-IsBody (some x) body h = (wrap-eq-ok_iff _ _ _).0 h

  encode_body-of_IsBody :
      (request : Option R) (body : Bytes)
      → IsBody marshal request body
      → encode_body {D = D} {E = E} marshal unmarshal request ≡ ok body
  encode_body-of_IsBody none body h = cc h
  encode_body-of_IsBody (some x) body h = (wrap-eq-ok_iff _ _ _).1 h

  encode_query-IsQuery :
      (given : List (String × Any)) (query : Option Q)
      → encode_query {E = E} new_struct given ≡ ok query
      → IsQuery new_struct given query
  encode_query-IsQuery [] query h = cc h
  encode_query-IsQuery (e ∷ es) query h =
      let (struct, made, same) = >>=-eq-ok _ _ query h in
      (struct, (wrap-eq-ok_iff _ _ _).0 made, cc same)

  encode_query-of_IsQuery :
      (given : List (String × Any)) (query : Option Q)
      → IsQuery new_struct given query
      → encode_query {E = E} new_struct given ≡ ok query
  encode_query-of_IsQuery [] query h = cc h
  encode_query-of_IsQuery (e ∷ es) query (struct, made, same) = rw (made, same) refl

  http_message-IsSent :
      (r : CallPluginJsonRequest R) (body : Bytes) (m : HttpMessage Q)
      → encode_body {D = D} {E = E} marshal unmarshal r.request ≡ ok body
      → http_message {E = E} new_struct (request_of r body) ≡ ok m
      → IsSent marshal new_struct r m
  unfolding http_message
  http_message-IsSent r body m encoded h =
      let (positive, rest) =
        (>>-eq-ok_iff (fail_if (not (ltb_ℤ (pos 0) r.installation_id)) _) _ m).0 h in
      let (named, last) = (>>-eq-ok_iff (fail_if (str_eq r.path "") _) _ m).0 rest in
      let (query, made, same) = >>=-eq-ok (encode_query new_struct r.query) _ m last in
      let e : message_of (request_of r body) query ≡ m = cc same in
      subst (IsSent marshal new_struct r) e (record {
        positive = let f = (fail_if-eq-ok_iff _ _).0 positive in ground (arith, f);
        named = (named_iff r.path).0 ((fail_if-eq-ok_iff _ _).0 named);
        installation_id = refl;
        method = or_get-IsMethod r.request r.method;
        path = refl;
        headers = headers_lem r.request r.headers;
        body = encode_body-IsBody r.request body encoded;
        query = encode_query-IsQuery r.query query made;
      })

  -- The request of CallPluginHTTP that CallPluginJSON makes, and its message.
  pub json_request-IsSent :
      (r : CallPluginJsonRequest R) (h : CallPluginHttpRequest) (m : HttpMessage Q)
      → json_request {D = D} {E = E} marshal unmarshal r ≡ ok h
      → http_message {E = E} new_struct h ≡ ok m
      → IsSent marshal new_struct r m
  unfolding json_request
  json_request-IsSent r h m x y =
      let (body, encoded, same) = >>=-eq-ok (encode_body marshal unmarshal r.request) _ h x in
      let e : request_of r body ≡ h = cc same in
      http_message-IsSent r body m encoded (ap (http_message {E = E} new_struct) e ∙ y)

  pub http_message-of_sent :
      (r : CallPluginJsonRequest R) (m : HttpMessage Q)
      → IsSent marshal new_struct r m
      → http_message {E = E} new_struct (request_of r m.body) ≡ ok m
  unfolding http_message
  http_message-of_sent r m s =
      rw (s.positive, (named_iff r.path).1 s.named, encode_query-of_IsQuery r.query m.query s.query)
        (ap ok (message_unique marshal new_struct r m s))

  pub json_request-of_sent :
      (r : CallPluginJsonRequest R) (m : HttpMessage Q)
      → IsSent marshal new_struct r m
      → json_request {D = D} {E = E} marshal unmarshal r ≡ ok (request_of r m.body)
  unfolding json_request
  json_request-of_sent r m s = rw (encode_body-of_IsBody r.request m.body s.body) refl
