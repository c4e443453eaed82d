-- ===== src/RuntimeHost/PluginCalls/Tests.antt =====
-- Calls of another plugin at concrete inputs, by a host that counts them.
use bloem_plugin_sdk.Base.{
  ℕ, suc, ◌<◌, ◌^◌, String, true, none, some, List, [], ◌∷◌, insert, Result, ok, ◌≡◌, refl, ◌↔◌,
}
use bloem_plugin_sdk.Base.Int.{ℤ, pos, int32}
use bloem_plugin_sdk.Values.{Any}
use bloem_plugin_sdk.RuntimeHost.InstanceState.{Bytes}
use bloem_plugin_sdk.RuntimeHost.PluginCalls.{
  CallPluginHttpRequest, CallPluginHttpResponse, HttpMessage, CallPluginJsonRequest, http_message,
  json_request, json_answer, call_plugin_http, call_plugin_json,
}
use bloem_plugin_sdk.RuntimeHost.PluginCalls.Laws.{http_message-installation_iff}
use bloem_plugin_sdk.RuntimeHost.PluginCalls.Json.{Succeeds, call_plugin_json-eq-ok_iff}

abbrev marshal : ℕ → Result ℕ Bytes
marshal n = ok (n ∷ [])

abbrev unmarshal : Bytes → Result ℕ Bytes
unmarshal body = ok body

abbrev new_struct : List (String × Any) → Result ℕ (List (String × Any))
new_struct query = ok query

abbrev answer : CallPluginHttpResponse
answer = record { status_code = pos 200; headers = []; body = 1 ∷ 2 ∷ [] }

abbrev counts : HttpMessage (List (String × Any)) → ℕ → ℕ × Result ℕ CallPluginHttpResponse
counts message n = (suc n, ok answer)

abbrev request : CallPluginJsonRequest ℕ
request = record {
  installation_id = pos 4;
  method = "";
  path = "/items";
  headers = [];
  query = [];
  request = some 7;
  has_response = true;
  max_response_bytes = pos 0;
}

call_plugin_json-eq-ok_iff_example :
    Succeeds marshal unmarshal new_struct counts request 0 1 (some (1 ∷ 2 ∷ []))
unfolding call_plugin_json json_request json_answer call_plugin_http http_message insert
call_plugin_json-eq-ok_iff_example =
    (call_plugin_json-eq-ok_iff marshal unmarshal new_struct counts request 0 1
        (some (1 ∷ 2 ∷ []))).0
      refl

-- 2^32 + 5
abbrev far_request : CallPluginHttpRequest
far_request = record {
  installation_id = pos 4294967301;
  method = "GET";
  path = "/items";
  headers = [];
  body = [];
  query = [];
}

abbrev far_message : HttpMessage (List (String × Any))
far_message = record {
  installation_id = pos 5;
  method = "GET";
  path = "/items";
  headers = [];
  body = [];
  query = none;
}

http_message-installation_iff_example :
    (◌≡◌ {A = ℤ} (pos 5) (pos 4294967301)) ↔ (4294967301 < 2 ^ 31)
unfolding http_message int32
http_message-installation_iff_example =
    http_message-installation_iff {E = ℕ} new_struct far_request 4294967301 far_message refl refl
