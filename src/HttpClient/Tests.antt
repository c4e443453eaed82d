-- ===== src/HttpClient/Tests.antt =====
-- A call of an API that answers each request, and counts them.
use bloem_plugin_sdk.Base.{
  arith, eq_iff, ℕ, suc, ◌+◌, ◌*◌, ◌≤◌, true, none, some, [], ◌∷◌, length, insert, ok, ◌≡◌, refl,
}
use bloem_plugin_sdk.Base.Int.{pos}
use bloem_plugin_sdk.Base.Decimal.{Bytes}
use bloem_plugin_sdk.HttpClient.{
  Client, Response, Json, Transport, Request, max_response_body, new, handle, request_of, do_json,
  status_text,
}
use bloem_plugin_sdk.HttpClient.Laws.{IsRequest, IsAccepted, do_json_reads, do_json-eq-ok_iff}

-- The decoder takes two bytes, the first of which is the value.
abbrev json : Json ℕ ℕ ℕ ℕ
json = record {
  encode = λ n. ok (n ∷ []);
  decode = λ s. record { consumed = 2; value = ok (first s.bytes) };
  message = λ raw. none;
}
  where
    first : Bytes → ℕ
    first [] = 0
    first (c ∷ s) = c

abbrev answer : Response ℕ
answer = record { status_code = pos 201; body = record { bytes = 7 ∷ 8 ∷ 9 ∷ []; failure = none } }

abbrev net : Transport ℕ ℕ ℕ ℕ
net = record { accept = λ method url. ok tt; send = λ h request n. (suc n, ok answer) }

abbrev client : Client ℕ
client = record { base_url = "https://api.example"; api_key = "key"; http_client = 0 }

client_is_new : new 0 " https://api.example/ " "key " none ≡ client
unfolding new
client_is_new = refl

teapot_text :
    status_text (record { status_code = pos 418; body = b't' ∷ []; message = [] })
    ≡ b'h' ∷ b't' ∷ b't' ∷ b'p' ∷ b'c' ∷ b'l' ∷ b'i' ∷ b'e' ∷ b'n' ∷ b't' ∷ b':' ∷ b' ' ∷ b'H'
      ∷ b'T' ∷ b'T' ∷ b'P' ∷ b' ' ∷ b'4' ∷ b'1' ∷ b'8' ∷ b':' ∷ b' ' ∷ b't' ∷ []
unfolding status_text
teapot_text = refl

abbrev item_request : Request
item_request = record {
  method = "POST";
  url = "https://api.example/items";
  headers =
      ("Accept", "application/json")
      ∷ ("X-Api-Key", "key")
      ∷ ("Content-Type", "application/json")
      ∷ [];
  body = some (5 ∷ []);
}

item_request-IsRequest : IsRequest json net client "POST" "/items" (some 5) item_request
item_request-IsRequest = record {
  base = ground (arith, eq_iff "https://api.example" "");
  key = ground (arith, eq_iff "key" "");
  encoded = refl;
  accepted = refl;
  method_line = refl;
  url = refl;
  headers = refl;
}

do_json_reads_example :
    (rest : Bytes) × ((do_json json net client "POST" "/items" (some 5) true 3).1.left ≡ some rest)
    × (length answer.body.bytes ≤ length rest + 2 * max_response_body)
    × (length answer.body.bytes ≤ max_response_body → rest ≡ [])
do_json_reads_example =
    do_json_reads json net client "POST" "/items" (some 5) true item_request 3 4 answer
      item_request-IsRequest refl

do_json-eq-ok_iff_example :
    (request : Request) × IsRequest json net client "POST" "/items" (some 5) request
    × (r : Response ℕ) × (net.send 0 request 3 ≡ (4, ok r))
    × IsAccepted json true r (some 7)
unfolding do_json request_of handle insert max_response_body
do_json-eq-ok_iff_example =
    (do_json-eq-ok_iff json net client "POST" "/items" (some 5) true 3 4 (some 7)).0 (refl, refl)
