-- ===== src/Server/Handlers/Tests/Receipts.antt =====
-- server.rs: the tests of what the receipt of an answer says, on the model.
use sekisho.Base.{Bool, true, ◌&&◌, ◌==◌, [], ◌∷◌, none, some, same, replicate, ◌≡◌, refl}
use sekisho.Text.{
  lit, split_once, to_lower, trim, trim_start, trim_end, keep_before, is_whitespace, remove_char,
}
use sekisho.Text.Utf8.{as_bytes, encode_char}
use sekisho.Json.{Value, string}
use sekisho.Fixtures.{hex, obj}
use sekisho.Auth.{extract_bearer, identify_caller, constant_time_eq}
use sekisho.Canonical.Serialize.{blob_id_of, sha256_of}
use sekisho.Policy.Evaluate.{evaluate, evaluate_deny, evaluate_allow}
use sekisho.Receipt.Stored.{stored_receipt, new_store, insert, get}
use sekisho.Providers.{read_json, upstream_meta}
use sekisho.Providers.OpenAi.{
  WireResponse, parse_request, call_non_streaming, to_canonical_response, to_canonical_usage,
  outcome_for_finish_reason,
}
use sekisho.Server.{initial_state, get_receipt, error_response}
use sekisho.Server.Receipts.{
  finish_error_receipt, finish_non_streaming_ok, sign_and_store, store_signed, signed_response,
  insert_receipt_header, receipt_of, error_parts, response_parts, no_upstream_call,
  with_upstream_meta,
}
use sekisho.Server.Surfaces.{chat_completions}
use sekisho.Server.Upstream.{non_streaming_response, status_failed, provider_failed, is_success}
use sekisho.Server.Handlers.{
  authenticate, respond, check_policy, dispatch, resolve_receipt_id, handle,
}
use sekisho.Server.Handlers.Tests.{
  allow_all_policy, test_app, decoders, said, reads, said_text, by_caller, mock, fetched, holds,
}

abbrev refusal_value : Value
refusal_value =
    obj ((lit "id", string (lit "chatcmpl-1")) ∷ (lit "model", string (lit "gpt-5.2")) ∷ [])

abbrev refusal_response : WireResponse
refusal_response = record {
  model = lit "gpt-5.2";
  choices =
      record {
        message = record { content = some (string []); tool_calls = none };
        finish_reason = some (lit "content_filter");
      }
      ∷ [];
  usage = record { prompt_tokens = 5; completion_tokens = 0; prompt_tokens_details = none };
}

abbrev refusal_receipt_records_outcome_1_in_same_store : Bool
unfolding handle chat_completions
refusal_receipt_records_outcome_1_in_same_store =
    let x = reads (said (lit "bad")) refusal_value in
    let reply =
      handle x (chat_completions x (decoders (lit "bad") refusal_response))
        (by_caller (said_text (lit "bad"))) (test_app allow_all_policy) (mock 200) in
    holds
      (λ r.
        r.outcome == 1
        && r.provider == 1
        && same r.endpoint_host (lit "api.openai.com")
        && same r.provider_request_id (lit "chatcmpl-1")
        && same r.tls_cert_sha256 (hex (replicate 32 0)))
      (fetched reply)

abbrev usage_response : WireResponse
usage_response = record {
  model = lit "gpt-5.2";
  choices =
      record {
        message = record { content = some (string (lit "hi")); tool_calls = none };
        finish_reason = some (lit "stop");
      }
      ∷ [];
  usage = record {
    prompt_tokens = 100;
    completion_tokens = 10;
    prompt_tokens_details = some (record { cached_tokens = 40 });
  };
}

abbrev usage_counters_are_reported_separately_not_folded : Bool
unfolding handle chat_completions
usage_counters_are_reported_separately_not_folded =
    let x = reads (said (lit "hi")) (obj ((lit "id", string (lit "chatcmpl-2")) ∷ [])) in
    let reply =
      handle x (chat_completions x (decoders (lit "hi") usage_response))
        (by_caller (said_text (lit "hi"))) (test_app allow_all_policy) (mock 200) in
    holds
      (λ r.
        r.input_tokens == 60
        && r.cache_creation_tokens == 0
        && r.cache_read_tokens == 40
        && r.output_tokens == 10)
      (fetched reply)

receipt_tests :
    (refusal_receipt_records_outcome_1_in_same_store
      && usage_counters_are_reported_separately_not_folded)
    ≡ true
unfolding handle authenticate respond check_policy dispatch non_streaming_response status_failed
    provider_failed is_success resolve_receipt_id extract_bearer split_once to_lower trim trim_start
    trim_end keep_before is_whitespace identify_caller constant_time_eq as_bytes encode_char
    chat_completions parse_request blob_id_of sha256_of evaluate evaluate_deny evaluate_allow
    finish_error_receipt finish_non_streaming_ok sign_and_store store_signed signed_response
    insert_receipt_header receipt_of error_parts response_parts stored_receipt no_upstream_call
    with_upstream_meta call_non_streaming read_json upstream_meta to_canonical_response
    to_canonical_usage outcome_for_finish_reason initial_state new_store insert get get_receipt
    error_response remove_char
receipt_tests = refl
