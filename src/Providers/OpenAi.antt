-- ===== src/Providers/OpenAi.antt =====
-- providers/openai.rs: the OpenAI-compatible adapter, without its stream accumulator.
pub mod Accumulator
pub mod Usage
mod Tests
mod Wire
pub use sekisho.Providers.OpenAi.Wire.{
  base_url, host, request_id_header, WireFunctionCall, WireToolCall, WireMessage, WireFunctionDef,
  WireTool, WireRequestFields, WirePromptTokensDetails, WireUsage, WireResponseMessage, WireChoice,
  WireResponse, Decoders,
}
use sekisho.Base.{
  ℕ, ◌-◌, Bool, true, false, List, [], ◌∷◌, ◌++◌, map, Option, none, some, Result, ok, err, ◌>>=◌,
  if◌then◌else◌, same, and_then, unwrap_or, map_option, is_empty, first, join, ◌||◌,
}
use sekisho.Text.{Str, Bytes, lit, trim}
use sekisho.Json.{
  Value, null, bool, string, array, object, end, field, to_list, get_str, get_bool, set_field,
}
use sekisho.Canonical.{
  CanonicalRole, system, user, assistant, tool, CanonicalBlock, text, tool_use, tool_result, opaque,
  CanonicalMessage, CanonicalRequest, CanonicalUsage, CanonicalResponse, ProviderMeta,
  CanonicalHeaders, Outcome, success, refusal,
}
use sekisho.External.{External}
use sekisho.Providers.{
  ProviderError, decode_error, transport_error, UpstreamMeta, HttpRequest, HttpResponse, set_header,
  upstream_meta, read_json, opaque_descriptor,
}

-- `saturating_sub` is the subtraction of natural numbers.
unfoldable pub to_canonical_usage : WireUsage → CanonicalUsage
to_canonical_usage u =
    let cache_read_tokens =
      unwrap_or 0 (map_option (λ details. details.cached_tokens) u.prompt_tokens_details) in
    record {
      input_tokens = u.prompt_tokens - cache_read_tokens;
      cache_creation_tokens = 0;
      cache_read_tokens = cache_read_tokens;
      output_tokens = u.completion_tokens;
    }

-- `finish_reason: "content_filter"` is a refusal.
unfoldable pub outcome_for_finish_reason : Str → Outcome
outcome_for_finish_reason finish_reason =
    if same finish_reason (lit "content_filter") then refusal else success

abbrev or_nothing {ℓ} : {A : Type ℓ} → Option (List A) → List A
or_nothing = unwrap_or []

abbrev role_of : Str → CanonicalRole
role_of role =
    if same role (lit "system") || same role (lit "developer")
    then system
    else if same role (lit "assistant")
    then assistant
    else if same role (lit "tool")
    then tool
    else user

-- The texts of the text blocks.
abbrev texts : List CanonicalBlock → List Str
texts [] = []
texts (text t ∷ bs) = t ∷ texts bs
texts (_ ∷ bs) = texts bs

module _ (x : External) where
  open x use {from_slice, from_str, to_text}

  part_to_block : Value → CanonicalBlock
  part_to_block part = elim (get_str (lit "type") part) [
    | some kind ↦
        if same kind (lit "text")
        then text (unwrap_or [] (get_str (lit "text") part))
        else opaque kind (opaque_descriptor x part)
    | none ↦ opaque (lit "unknown") (opaque_descriptor x part)
  ]

  pub stringify_content : Value → List CanonicalBlock
  unfolding part_to_block
  stringify_content (string t) = text t ∷ []
  stringify_content (array parts) = map part_to_block (to_list parts)
  stringify_content null = []
  stringify_content other = text (to_text other) ∷ []

  -- The `input` of a tool call from its arguments.
  pub arguments_input : Str → Value
  arguments_input arguments =
      if is_empty (trim arguments)
      then object end
      else elim (from_str arguments) [ ok v ↦ v | err _ ↦ string arguments ]

  pub tool_call_to_block : WireToolCall → CanonicalBlock
  unfolding arguments_input
  tool_call_to_block call =
      tool_use call.id call.function.name (arguments_input call.function.arguments)

  abbrev tool_call_blocks : Option (List WireToolCall) → List CanonicalBlock
  unfolding tool_call_to_block
  tool_call_blocks calls = map tool_call_to_block (or_nothing calls)

  abbrev content_blocks : Option Value → List CanonicalBlock
  unfolding stringify_content
  content_blocks content = or_nothing (map_option stringify_content content)

  -- A tool message holds one result, whose text joins the text blocks.
  role_content : CanonicalRole → WireMessage → List CanonicalBlock
  unfolding stringify_content
  role_content tool message =
      tool_result (unwrap_or [] message.tool_call_id)
        (join (lit "\n") (texts (content_blocks message.content))) false
      ∷ []
  role_content _ message = content_blocks message.content

  pub message_to_canonical : WireMessage → CanonicalMessage
  unfolding role_content tool_call_to_block
  message_to_canonical message = record {
    role = role_of message.role;
    content = role_content (role_of message.role) message ++ tool_call_blocks message.tool_calls;
  }

  pub to_canonical_request : WireRequestFields → CanonicalRequest
  unfolding message_to_canonical
  to_canonical_request fields = record {
    model = fields.model;
    system = none;
    messages = map message_to_canonical fields.messages;
    tools =
        map
          (λ t. record {
            name = t.function.name;
            description = t.function.description;
            input_schema = unwrap_or null t.function.parameters;
          })
          (or_nothing fields.tools);
    tool_choice = fields.tool_choice;
    max_tokens = fields.max_tokens;
    temperature = fields.temperature;
  }

  unfoldable pub upstream_headers : Str → List (Str × Str) × CanonicalHeaders
  upstream_headers api_key =
      set_header x (lit "content-type") (lit "application/json") false
        (set_header x (lit "authorization") (lit "Bearer " ++ api_key) true ([], []))

  module _ (d : Decoders) where
    unfoldable pub parse_request : Bytes → Result (Value × Bool × CanonicalRequest) ProviderError
    unfolding to_canonical_request
    parse_request raw_bytes = elim (from_slice raw_bytes) [
      | err e ↦ err (decode_error e)
      | ok raw ↦ elim (d.request_fields raw) [
        | err e ↦ err (decode_error e)
        | ok fields ↦
            ok (raw, unwrap_or false (get_bool (lit "stream") raw), to_canonical_request fields)
      ]
    ]

    abbrev choice_blocks : Option WireChoice → List CanonicalBlock
    unfolding stringify_content tool_call_to_block
    choice_blocks none = []
    choice_blocks (some c) =
        content_blocks c.message.content ++ tool_call_blocks c.message.tool_calls

    unfoldable pub to_canonical_response :
        Value → Result (CanonicalResponse × ProviderMeta × Str) ProviderError
    unfolding stringify_content tool_call_to_block to_canonical_usage
    to_canonical_response raw = elim (d.response raw) [
      | err e ↦ err (decode_error e)
      | ok response ↦
          let choice = first response.choices in
          let stop_reason = unwrap_or [] (and_then choice (λ c. c.finish_reason)) in
          ok (
            record {
              model = response.model;
              content = choice_blocks choice;
              stop_reason = stop_reason;
              usage = to_canonical_usage response.usage;
            },
            record {
              stop_reason = stop_reason;
              service_tier = get_str (lit "service_tier") raw;
              inference_geo = get_str (lit "inference_geo") raw;
            },
            unwrap_or [] (get_str (lit "id") raw),
          )
    ]

  -- The request of `call_non_streaming`, and of `start_streaming` with the body it dispatches.
  unfoldable pub non_streaming_request : Str → Str → Value → HttpRequest
  unfolding upstream_headers
  non_streaming_request base api_key raw_request = record {
    url = base ++ lit "/v1/chat/completions";
    headers = (upstream_headers api_key).0;
    body = set_field (lit "stream") (bool false) raw_request;
  }

  abbrev pub streaming_body : Value → Value
  streaming_body raw_request =
      set_field (lit "stream_options") (object (field (lit "include_usage") (bool true) end))
        (set_field (lit "stream") (bool true) raw_request)

  unfoldable pub streaming_request : Str → Str → Value → HttpRequest
  unfolding upstream_headers
  streaming_request base api_key raw_request = record {
    url = base ++ lit "/v1/chat/completions";
    headers = (upstream_headers api_key).0;
    body = streaming_body raw_request;
  }

  -- `send` is `Client::post(..).send()`.
  unfoldable pub call_non_streaming :
      (HttpRequest → Result HttpResponse Str)
      → Str
      → Str
      → Value
      → Result (ℕ × Value × UpstreamMeta) ProviderError
  unfolding non_streaming_request
  call_non_streaming send base api_key raw_request =
      elim (send (non_streaming_request base api_key raw_request)) [
        | err e ↦ err (transport_error e)
        | ok response ↦ read_json x request_id_header response (upstream_headers api_key).1
      ]

  unfoldable pub start_streaming :
      (HttpRequest → Result HttpResponse Str)
      → Str
      → Str
      → Value
      → Result (HttpResponse × Value × UpstreamMeta) ProviderError
  unfolding streaming_request
  start_streaming send base api_key raw_request =
      elim (send (streaming_request base api_key raw_request)) [
        | err e ↦ err (transport_error e)
        | ok response ↦ ok (
          response,
          streaming_body raw_request,
          upstream_meta x request_id_header response (upstream_headers api_key).1,
        )
      ]
