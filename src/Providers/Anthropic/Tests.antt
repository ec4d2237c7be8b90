-- ===== src/Providers/Anthropic/Tests.antt =====
-- providers/anthropic.rs: the tests of the adapter that stand beside the code, on the model.
use sekisho.Base.{List, [], ◌∷◌, Option, none, some, ok, err, ok_value, map, map_option, ◌≡◌, refl}
use sekisho.Text.{lit}
use sekisho.Json.{Value, string}
use sekisho.Canonical.{CanonicalMessage, text, refusal, success}
use sekisho.Fixtures.{external, obj, arr}
use sekisho.Providers.{set_header, redacted_header_value}
use sekisho.Providers.Anthropic.{
  Decoders, WireMessage, WireRequestFields, WireUsage, anthropic_version, to_canonical_request,
  message_to_canonical, content_blocks, extract_system_text, join_some, outcome_for_stop_reason,
  to_canonical_response, to_canonical_usage, upstream_headers,
}

-- What serde reads from a request.
abbrev request_of : Option Value → List WireMessage → WireRequestFields
request_of system messages = record {
  model = lit "m";
  max_tokens = some 100;
  system = system;
  messages = messages;
  tools = none;
  tool_choice = none;
  temperature = none;
}

abbrev ParsesStringContentAsSingleTextBlock : Type 0
unfolding to_canonical_request
ParsesStringContentAsSingleTextBlock =
    map {A = CanonicalMessage} (λ m. m.content)
      (to_canonical_request external (
        request_of none
          (record { role = lit "user"; content = string (lit "hello") } ∷ []))).messages
    ≡ (text (lit "hello") ∷ []) ∷ []

abbrev SystemArrayOfBlocksJoinsText : Type 0
unfolding to_canonical_request
SystemArrayOfBlocksJoinsText =
    (to_canonical_request external (
      request_of
        (some (
          arr (
            obj ((lit "type", string (lit "text")) ∷ (lit "text", string (lit "a")) ∷ [])
            ∷ obj (
                (lit "type", string (lit "text"))
                ∷ (lit "text", string (lit "b"))
                ∷ (lit "cache_control", obj ((lit "type", string (lit "ephemeral")) ∷ []))
                ∷ [])
            ∷ [])))
        [])).system
    ≡ some (lit "a\nb")

abbrev RefusalStopReasonMapsToRefusalOutcome : Type 0
unfolding outcome_for_stop_reason
RefusalStopReasonMapsToRefusalOutcome =
    (outcome_for_stop_reason (lit "refusal") ≡ refusal)
    × (outcome_for_stop_reason (lit "end_turn") ≡ success)

abbrev no_usage : WireUsage
no_usage = record {
  input_tokens = 0;
  output_tokens = 0;
  cache_creation_input_tokens = 0;
  cache_read_input_tokens = 0;
}

abbrev decoders : Decoders
decoders = record {
  request_fields = λ _. err (lit "no request");
  response = λ _. ok (record {
    model = lit "m";
    content = [];
    stop_reason = some (lit "end_turn");
    usage = no_usage;
  });
}

abbrev UsageCountersStaySeparateNotFolded : Type 0
unfolding to_canonical_usage
UsageCountersStaySeparateNotFolded =
    to_canonical_usage (record {
      input_tokens = 5;
      output_tokens = 1;
      cache_creation_input_tokens = 2;
      cache_read_input_tokens = 3;
    })
    ≡ record {
      input_tokens = 5;
      cache_creation_tokens = 2;
      cache_read_tokens = 3;
      output_tokens = 1;
    }

abbrev ProviderRequestIdPrefersBodyIdOverHeader : Type 0
unfolding to_canonical_response
ProviderRequestIdPrefersBodyIdOverHeader =
    map_option (λ r. r.2)
      (ok_value (
        to_canonical_response external decoders
          (obj ((lit "id", string (lit "msg_from_body")) ∷ []))))
    ≡ some (lit "msg_from_body")

abbrev ProviderRequestIdEmptyWhenBodyHasNoId : Type 0
unfolding to_canonical_response
ProviderRequestIdEmptyWhenBodyHasNoId =
    map_option (λ r. r.2) (ok_value (to_canonical_response external decoders (obj []))) ≡ some []

abbrev ServiceTierIsCapturedWhenPresent : Type 0
unfolding to_canonical_response
ServiceTierIsCapturedWhenPresent =
    map_option (λ r. r.1)
      (ok_value (
        to_canonical_response external decoders
          (obj ((lit "service_tier", string (lit "standard")) ∷ []))))
    ≡ some (record {
      stop_reason = lit "end_turn";
      service_tier = some (lit "standard");
      inference_geo = none;
    })

-- All of the recorded headers, so that none of them holds the key.
abbrev UpstreamHeadersRedactTheApiKey : Type 0
unfolding upstream_headers
UpstreamHeadersRedactTheApiKey =
    (upstream_headers external (lit "sk-super-secret")).1
    ≡ (lit "anthropic-version", anthropic_version)
      ∷ (lit "content-type", lit "application/json")
      ∷ (lit "x-api-key", redacted_header_value)
      ∷ []

request_tests : ParsesStringContentAsSingleTextBlock × SystemArrayOfBlocksJoinsText
unfolding to_canonical_request message_to_canonical content_blocks extract_system_text join_some
request_tests = (refl, refl)

response_tests :
    RefusalStopReasonMapsToRefusalOutcome × UsageCountersStaySeparateNotFolded
    × ProviderRequestIdPrefersBodyIdOverHeader × ProviderRequestIdEmptyWhenBodyHasNoId
    × ServiceTierIsCapturedWhenPresent
unfolding outcome_for_stop_reason to_canonical_usage to_canonical_response
response_tests = ((refl, refl), refl, refl, refl, refl)

header_tests : UpstreamHeadersRedactTheApiKey
unfolding upstream_headers set_header
header_tests = refl
