-- ===== src/Server/Handlers/Tests/Messages.antt =====
-- server.rs: the test of the Anthropic surface, on the model.
use sekisho.Base.{Bool, true, not, ◌&&◌, ◌==◌, [], ◌∷◌, none, some, ok, same, replicate, ◌≡◌, refl}
use sekisho.Text.{
  Str, lit, split_once, to_lower, trim, trim_start, trim_end, keep_before, is_whitespace,
  remove_char,
}
use sekisho.Text.Utf8.{as_bytes, encode_char}
use sekisho.Json.{Value, string}
use sekisho.Fixtures.{hex, obj, arr, num}
use sekisho.Auth.{extract_bearer, identify_caller, constant_time_eq}
use sekisho.Canonical.Serialize.{blob_id_of, sha256_of}
use sekisho.Policy.Evaluate.{evaluate, evaluate_deny, evaluate_allow}
use sekisho.Receipt.Stored.{stored_receipt, new_store, insert, get}
use sekisho.Providers.{read_json, upstream_meta}
use sekisho.Providers.Anthropic
use sekisho.Server.{initial_state}
use sekisho.Server.Receipts.{
  finish_non_streaming_ok, sign_and_store, store_signed, signed_response, insert_receipt_header,
  receipt_of, response_parts, with_upstream_meta,
}
use sekisho.Server.Surfaces.{messages}
use sekisho.Server.Upstream.{non_streaming_response, is_success}
use sekisho.Server.Handlers.{
  authenticate, respond, check_policy, dispatch, resolve_receipt_id, handle,
}
use sekisho.Server.Handlers.Tests.{
  allow_all_policy, test_app, by_caller, reads, fetched, holds, mock,
}

abbrev claude_fields : Anthropic.WireRequestFields
claude_fields = record {
  model = lit "claude-sonnet-5";
  max_tokens = some 100;
  system = none;
  messages = record { role = lit "user"; content = string (lit "hi") } ∷ [];
  tools = none;
  tool_choice = none;
  temperature = none;
}

abbrev claude_text : Str
claude_text =
    lit
      "{\"max_tokens\":100,\"messages\":[{\"content\":\"hi\",\"role\":\"user\"}],\"model\":\"claude-sonnet-5\"}"

abbrev claude_request : Value
claude_request = obj (
    (lit "max_tokens", num 100)
    ∷ (
      lit "messages",
      arr (obj ((lit "content", string (lit "hi")) ∷ (lit "role", string (lit "user")) ∷ []) ∷ []),
    )
    ∷ (lit "model", string (lit "claude-sonnet-5"))
    ∷ [])

abbrev claude_response : Anthropic.WireResponse
claude_response = record {
  model = lit "claude-sonnet-5";
  content = obj ((lit "type", string (lit "text")) ∷ (lit "text", string (lit "hi")) ∷ []) ∷ [];
  stop_reason = some (lit "end_turn");
  usage = record {
    input_tokens = 5;
    output_tokens = 2;
    cache_creation_input_tokens = 0;
    cache_read_input_tokens = 0;
  };
}

abbrev claude_decoders : Anthropic.Decoders
claude_decoders = record {
  request_fields = λ _. ok claude_fields;
  response = λ _. ok claude_response;
}

abbrev anthropic_success_receipt_has_provider_0_and_correct_host : Bool
unfolding handle messages
anthropic_success_receipt_has_provider_0_and_correct_host =
    let x = reads claude_request (obj ((lit "id", string (lit "msg_1")) ∷ [])) in
    let reply =
      handle x (messages x claude_decoders) (by_caller claude_text) (test_app allow_all_policy)
        (mock 200) in
    reply.response.status == 200
    && holds
        (λ r.
          r.outcome == 0
          && r.provider == 0
          && same r.endpoint_host (lit "api.anthropic.com")
          && same r.provider_request_id (lit "msg_1")
          && not (same r.request_blob (hex (replicate 32 0)))
          && not (same r.response_blob (hex (replicate 32 0))))
        (fetched reply)

anthropic_tests : anthropic_success_receipt_has_provider_0_and_correct_host ≡ true
unfolding handle authenticate respond check_policy dispatch non_streaming_response is_success
    resolve_receipt_id extract_bearer split_once to_lower trim trim_start trim_end keep_before
    is_whitespace identify_caller constant_time_eq as_bytes encode_char messages
    Anthropic.parse_request blob_id_of sha256_of evaluate evaluate_deny evaluate_allow
    finish_non_streaming_ok sign_and_store store_signed signed_response insert_receipt_header
    receipt_of response_parts stored_receipt with_upstream_meta Anthropic.call_non_streaming
    read_json upstream_meta Anthropic.to_canonical_response Anthropic.to_canonical_usage
    Anthropic.outcome_for_stop_reason initial_state new_store insert get remove_char
anthropic_tests = refl
