-- ===== src/Providers/OpenAi/Tests.antt =====
-- providers/openai.rs: the tests of the adapter that stand beside the code, on the model.
use sekisho.Base.{
  false, [], ◌∷◌, Option, none, some, ok, err, ok_value, first, map_option, ◌≡◌, refl,
}
use sekisho.Text.{Str, lit, trim, trim_start, trim_end, keep_before, is_whitespace}
use sekisho.Json.{Value, string}
use sekisho.Canonical.{CanonicalMessage, tool, text, tool_use, tool_result, refusal, success}
use sekisho.External.{External}
use sekisho.Fixtures.{external, obj, knows}
use sekisho.Providers.{set_header, redacted_header_value}
use sekisho.Providers.OpenAi.{
  Decoders, WireMessage, WireRequestFields, WireResponse, WireUsage, to_canonical_request,
  message_to_canonical, role_content, stringify_content, part_to_block, tool_call_to_block,
  arguments_input, outcome_for_finish_reason, to_canonical_response, to_canonical_usage,
  upstream_headers,
}

-- What serde reads from a request with one message.
abbrev request_of : WireMessage → WireRequestFields
request_of message = record {
  model = lit "m";
  messages = message ∷ [];
  max_tokens = none;
  temperature = none;
  tools = none;
  tool_choice = none;
}

abbrev first_message : External → WireMessage → Option CanonicalMessage
unfolding to_canonical_request
first_message x message = first (to_canonical_request x (request_of message)).messages

abbrev ParsesFlatStringContent : Type 0
unfolding first_message
ParsesFlatStringContent =
    map_option (λ m. m.content)
      (first_message external (record {
        role = lit "user";
        content = some (string (lit "hi"));
        tool_calls = none;
        tool_call_id = none;
      }))
    ≡ some (text (lit "hi") ∷ [])

abbrev ToolRoleMessageBecomesToolResultBlock : Type 0
unfolding first_message
ToolRoleMessageBecomesToolResultBlock =
    first_message external (record {
      role = lit "tool";
      content = some (string (lit "42"));
      tool_calls = none;
      tool_call_id = some (lit "call_1");
    })
    ≡ some (record { role = tool; content = tool_result (lit "call_1") (lit "42") false ∷ [] })

abbrev city_text : Str
city_text = lit "{\"city\":\"NYC\"}"

abbrev city : Value
city = obj ((lit "city", string (lit "NYC")) ∷ [])

abbrev AssistantToolCallsBecomeToolUseBlocks : Type 0
unfolding first_message
AssistantToolCallsBecomeToolUseBlocks =
    map_option (λ m. m.content)
      (first_message (knows ((city_text, city) ∷ [])) (record {
        role = lit "assistant";
        content = none;
        tool_calls = some (
            record {
              id = lit "call_1";
              function = record { name = lit "get_weather"; arguments = city_text };
            }
            ∷ []);
        tool_call_id = none;
      }))
    ≡ some (tool_use (lit "call_1") (lit "get_weather") city ∷ [])

abbrev ContentFilterFinishReasonIsRefusal : Type 0
unfolding outcome_for_finish_reason
ContentFilterFinishReasonIsRefusal =
    (outcome_for_finish_reason (lit "content_filter") ≡ refusal)
    × (outcome_for_finish_reason (lit "stop") ≡ success)

abbrev hi_response : WireUsage → WireResponse
hi_response usage = record {
  model = lit "m";
  choices =
      record {
        message = record { content = some (string (lit "hi")); tool_calls = none };
        finish_reason = some (lit "stop");
      }
      ∷ [];
  usage = usage;
}

abbrev decoders : WireUsage → Decoders
decoders usage = record {
  request_fields = λ _. err (lit "no request");
  response = λ _. ok (hi_response usage);
  usage = λ _. err (lit "no usage");
}

abbrev CachedTokensAreSplitOutOfPromptTokens : Type 0
unfolding to_canonical_usage
CachedTokensAreSplitOutOfPromptTokens =
    to_canonical_usage (record {
      prompt_tokens = 100;
      completion_tokens = 10;
      prompt_tokens_details = some (record { cached_tokens = 40 });
    })
    ≡ record {
      input_tokens = 60;
      cache_creation_tokens = 0;
      cache_read_tokens = 40;
      output_tokens = 10;
    }

abbrev ProviderRequestIdPrefersBodyId : Type 0
unfolding to_canonical_response
ProviderRequestIdPrefersBodyId =
    map_option (λ r. r.2)
      (ok_value (
        to_canonical_response external
          (decoders
            (record { prompt_tokens = 0; completion_tokens = 0; prompt_tokens_details = none }))
          (obj ((lit "id", string (lit "chatcmpl-abc")) ∷ (lit "model", string (lit "m")) ∷ []))))
    ≡ some (lit "chatcmpl-abc")

-- All of the recorded headers, so that none of them holds the key.
abbrev UpstreamHeadersRedactTheBearerToken : Type 0
unfolding upstream_headers
UpstreamHeadersRedactTheBearerToken =
    (upstream_headers external (lit "sk-super-secret")).1
    ≡ (lit "authorization", redacted_header_value)
      ∷ (lit "content-type", lit "application/json")
      ∷ []

request_tests :
    ParsesFlatStringContent × ToolRoleMessageBecomesToolResultBlock
    × AssistantToolCallsBecomeToolUseBlocks
unfolding first_message to_canonical_request message_to_canonical role_content stringify_content
    part_to_block tool_call_to_block arguments_input trim trim_start trim_end keep_before
    is_whitespace
request_tests = (refl, refl, refl)

response_tests :
    ContentFilterFinishReasonIsRefusal × CachedTokensAreSplitOutOfPromptTokens
    × ProviderRequestIdPrefersBodyId
unfolding outcome_for_finish_reason to_canonical_usage to_canonical_response
response_tests = ((refl, refl), refl, refl)

header_tests : UpstreamHeadersRedactTheBearerToken
unfolding upstream_headers set_header
header_tests = refl
