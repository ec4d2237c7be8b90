-- ===== src/Server/Handlers/Tests.antt =====
-- server.rs: the tests beside the code, on the model. Their mock server is the argument `send`.
mod Messages
mod Receipts
mod Streams
use sekisho.Base.{
  ℕ, ◌+◌, ◌-◌, Bool, true, false, not, ◌&&◌, ◌==◌, [], ◌∷◌, ◌++◌, Option, none, some, ok, err, same,
  is_empty, if◌then◌else◌, and_then, unwrap_or, replicate, ◌≡◌, refl,
}
use sekisho.Text.{
  Str, lit, split_once, to_lower, trim, trim_start, trim_end, keep_before, is_whitespace,
  remove_char,
}
use sekisho.Text.Utf8.{as_bytes, encode_char}
use sekisho.Json.{Value, null, string}
use sekisho.External.{External}
use sekisho.Fixtures.{external, obj, arr}
use sekisho.Auth.{extract_bearer, identify_caller, constant_time_eq}
use sekisho.Canonical.Serialize.{blob_id_of, sha256_of}
use sekisho.Policy.{CompiledPolicy, CompiledRule}
use sekisho.Policy.Evaluate.{evaluate, evaluate_deny, evaluate_allow}
use sekisho.Config.{AppConfig, default_max_body_bytes, default_concurrency_limit}
use sekisho.Receipt.Stored.{StoredReceipt, stored_receipt, new_store, insert, get}
use sekisho.Providers.{read_json, upstream_meta}
use sekisho.Providers.OpenAi
use sekisho.Providers.OpenAi.{
  Decoders, WireResponse, WireRequestFields, parse_request, call_non_streaming,
  to_canonical_response, to_canonical_usage, outcome_for_finish_reason,
}
use sekisho.Server.{AppState, initial_state, get_receipt, error_response}
use sekisho.Server.Receipts.{
  finish_error_receipt, finish_non_streaming_ok, sign_and_store, store_signed, signed_response,
  insert_receipt_header, receipt_of, error_parts, response_parts, no_upstream_call,
  with_upstream_meta,
}
use sekisho.Server.Surfaces.{Call, Send, chat_completions}
use sekisho.Server.Upstream.{
  Reply, non_streaming_response, status_failed, provider_failed, is_success,
}
use sekisho.Server.Handlers.{
  authenticate, respond, check_policy, dispatch, resolve_receipt_id, handle,
}

abbrev pub every_caller : Str → CompiledRule
every_caller name = record {
  name = name;
  caller_keys = none;
  model_matcher = none;
  max_tokens = none;
  max_request_bytes = none;
}

abbrev pub allow_all_policy : CompiledPolicy
allow_all_policy = record { deny_rules = []; allow_rules = every_caller (lit "allow-all") ∷ [] }

abbrev deny_all_policy : CompiledPolicy
deny_all_policy = record { deny_rules = every_caller (lit "deny-all") ∷ []; allow_rules = [] }

abbrev pub test_config : CompiledPolicy → AppConfig
test_config policy = record {
  anthropic_api_key = some (lit "test-anthropic-key");
  openai_api_key = some (lit "test-openai-key");
  caller_keys = lit "sk-caller" ∷ [];
  policy = policy;
  max_body_bytes = default_max_body_bytes;
  concurrency_limit = default_concurrency_limit;
  receipt_ring_buffer_size = 64;
  config_hash = replicate 32 7;
}

abbrev pub test_app : CompiledPolicy → AppState
unfolding initial_state
test_app policy = initial_state (test_config policy) (lit "http://mock") (lit "http://mock")

-- The fields that serde reads from the requests of these tests.
abbrev pub wire_fields : Str → WireRequestFields
wire_fields content = record {
  model = lit "gpt-5.2";
  messages =
      record {
        role = lit "user";
        content = some (string content);
        tool_calls = none;
        tool_call_id = none;
      }
      ∷ [];
  max_tokens = none;
  temperature = none;
  tools = none;
  tool_choice = none;
}

abbrev pub decoders : Str → WireResponse → Decoders
decoders content response = record {
  request_fields = λ _. ok (wire_fields content);
  response = λ _. ok response;
  usage = λ _. err (lit "no usage");
}

abbrev pub said : Str → Value
said content = obj (
    (
      lit "messages",
      arr (obj ((lit "content", string content) ∷ (lit "role", string (lit "user")) ∷ []) ∷ []),
    )
    ∷ (lit "model", string (lit "gpt-5.2"))
    ∷ [])

-- A JSON reader that reads a request, unless the text is the mock server's answer.
abbrev pub reads : Value → Value → External
reads request answer = record external {
  from_slice = λ bytes. if same bytes (lit "answer") then ok answer else ok request;
}

abbrev pub said_text : Str → Str
said_text content =
    lit "{\"messages\":[{\"content\":\""
    ++ content
    ++ lit "\",\"role\":\"user\"}],\"model\":\"gpt-5.2\"}"

abbrev pub posted : Option (Option Str) → Str → Call
posted authorization body = record {
  headers = record { authorization = authorization; nonce = none };
  body = body;
  clock = some 1700000000000;
  uuid = replicate 16 5;
}

abbrev pub by_caller : Str → Call
by_caller body = posted (some (some (lit "Bearer sk-caller"))) body

abbrev pub mock : ℕ → Send
mock status _ = ok (record {
  status = status;
  peer_certificate = none;
  header = λ _. none;
  bytes = ok (lit "answer");
  text = ok (lit "answer");
  bytes_stream = [];
})

abbrev no_mock : Send
no_mock = mock 404

-- The receipt behind the header of an answer, as `GET /receipts` looks for it.
abbrev pub fetched : Reply → Option StoredReceipt
unfolding get
fetched reply = and_then reply.response.receipt_header (get reply.state.receipts)

abbrev pub holds : (StoredReceipt → Bool) → Option StoredReceipt → Bool
holds p none = false
holds p (some r) = p r

abbrev pub no_response : WireResponse
no_response = record {
  model = [];
  choices = [];
  usage = record { prompt_tokens = 0; completion_tokens = 0; prompt_tokens_details = none };
}

abbrev chat_completions_rejects_missing_auth : Bool
unfolding handle chat_completions
chat_completions_rejects_missing_auth =
    let x = reads (said (lit "hi")) null in
    (handle x (chat_completions x (decoders (lit "hi") no_response))
      (posted none (lit "{\"messages\":[],\"model\":\"gpt-5.2\"}")) (test_app allow_all_policy)
      no_mock).response.status
    == 401

abbrev policy_denial_produces_receipt_with_outcome_3_and_no_upstream_call : Bool
unfolding handle chat_completions
policy_denial_produces_receipt_with_outcome_3_and_no_upstream_call =
    let x = reads (said (lit "hi")) null in
    let reply =
      handle x (chat_completions x (decoders (lit "hi") no_response))
        (by_caller (said_text (lit "hi"))) (test_app deny_all_policy) no_mock in
    reply.response.status == 403 && not (is_empty (unwrap_or [] reply.response.receipt_header))

abbrev upstream_5xx_produces_outcome_2_receipt : Bool
unfolding handle chat_completions
upstream_5xx_produces_outcome_2_receipt =
    let x =
      reads (said (lit "hi"))
        (obj ((lit "error", obj ((lit "message", string (lit "boom")) ∷ [])) ∷ [])) in
    let reply =
      handle x (chat_completions x (decoders (lit "hi") no_response))
        (by_caller (said_text (lit "hi"))) (test_app allow_all_policy) (mock 500) in
    reply.response.status == 502 && holds (λ r. r.outcome == 2) (fetched reply)

abbrev unknown_receipt_id_returns_404 : Bool
unfolding get_receipt
unknown_receipt_id_returns_404 =
    (get_receipt (test_app allow_all_policy) (lit "does-not-exist")).status == 404

handler_tests :
    (chat_completions_rejects_missing_auth
      && policy_denial_produces_receipt_with_outcome_3_and_no_upstream_call
      && upstream_5xx_produces_outcome_2_receipt && unknown_receipt_id_returns_404)
    ≡ true
unfolding handle authenticate respond check_policy dispatch non_streaming_response status_failed
    provider_failed is_success resolve_receipt_id extract_bearer split_once to_lower trim trim_start
    trim_end keep_before is_whitespace identify_caller constant_time_eq as_bytes encode_char
    chat_completions parse_request blob_id_of sha256_of evaluate evaluate_deny evaluate_allow
    finish_error_receipt finish_non_streaming_ok sign_and_store store_signed signed_response
    insert_receipt_header receipt_of error_parts response_parts stored_receipt no_upstream_call
    with_upstream_meta call_non_streaming read_json upstream_meta to_canonical_response
    to_canonical_usage outcome_for_finish_reason initial_state new_store insert get get_receipt
    error_response remove_char
handler_tests = refl
