-- ===== src/Providers/Anthropic.antt =====
-- providers/anthropic.rs: the Anthropic adapter, without its stream accumulator.
pub mod Accumulator
mod Tests
mod Wire
pub use sekisho.Providers.Anthropic.Wire.{
  base_url, host, anthropic_version, request_id_header, WireMessage, WireTool, WireRequestFields,
  WireUsage, WireResponse, Decoders,
}
use sekisho.Base.{
  ℕ, Bool, true, false, List, [], ◌∷◌, ◌++◌, map, Option, none, some, Result, ok, err,
  if◌then◌else◌, same, and_then, unwrap_or, join,
}
use sekisho.Text.{Str, Bytes, lit}
use sekisho.Json.{
  Value, null, bool, string, array, to_list, get, get_str, get_bool, get_u64, set_field,
}
use sekisho.Canonical.{
  CanonicalRole, system, user, assistant, CanonicalBlock, text, tool_use, tool_result, opaque,
  CanonicalMessage, CanonicalRequest, CanonicalUsage, CanonicalResponse, ProviderMeta,
  CanonicalHeaders, Outcome, success, refusal,
}
use sekisho.External.{External}
use sekisho.Providers.{
  ProviderError, decode_error, transport_error, UpstreamMeta, HttpRequest, HttpResponse, set_header,
  upstream_meta, read_json, opaque_descriptor,
}

-- A counter that the object does not hold stays.
unfoldable pub merge_from : WireUsage → Value → WireUsage
merge_from u value = record {
  input_tokens = unwrap_or u.input_tokens (get_u64 (lit "input_tokens") value);
  output_tokens = unwrap_or u.output_tokens (get_u64 (lit "output_tokens") value);
  cache_creation_input_tokens =
      unwrap_or u.cache_creation_input_tokens (get_u64 (lit "cache_creation_input_tokens") value);
  cache_read_input_tokens =
      unwrap_or u.cache_read_input_tokens (get_u64 (lit "cache_read_input_tokens") value);
}

unfoldable pub to_canonical_usage : WireUsage → CanonicalUsage
to_canonical_usage u = record {
  input_tokens = u.input_tokens;
  cache_creation_tokens = u.cache_creation_input_tokens;
  cache_read_tokens = u.cache_read_input_tokens;
  output_tokens = u.output_tokens;
}

unfoldable pub outcome_for_stop_reason : Str → Outcome
outcome_for_stop_reason stop_reason = if same stop_reason (lit "refusal") then refusal else success

-- The texts of the blocks that have one.
abbrev block_texts : List Value → List Str
block_texts [] = []
block_texts (b ∷ bs) =
    let rest = block_texts bs in elim (get_str (lit "text") b) [ none ↦ rest | some t ↦ t ∷ rest ]

join_some : List Str → Option Str
join_some [] = none
join_some (t ∷ ts) = some (join (lit "\n") (t ∷ ts))

pub extract_system_text : Value → Option Str
unfolding join_some
extract_system_text (string t) = some t
extract_system_text (array blocks) = join_some (block_texts (to_list blocks))
extract_system_text _ = none

abbrev role_of : Str → CanonicalRole
role_of role =
    if same role (lit "assistant")
    then assistant
    else if same role (lit "system")
    then system
    else user

-- `block.get(key).and_then(Value::as_str).unwrap_or_default()`.
abbrev pub text_at : Str → Value → Str
text_at key block = unwrap_or [] (get_str key block)

module _ (x : External) where
  open x use {from_slice, to_text}

  pub stringify_tool_result_content : Option Value → Str
  stringify_tool_result_content none = []
  stringify_tool_result_content (some (string t)) = t
  stringify_tool_result_content (some (array blocks)) =
      join (lit "\n") (map (λ b. unwrap_or (to_text b) (get_str (lit "text") b)) (to_list blocks))
  stringify_tool_result_content (some other) = to_text other

  pub block_of_type : Str → Value → CanonicalBlock
  unfolding stringify_tool_result_content
  block_of_type kind block =
      if same kind (lit "text")
      then text (text_at (lit "text") block)
      else if same kind (lit "tool_use")
      then tool_use (text_at (lit "id") block) (text_at (lit "name") block)
          (unwrap_or null (get (lit "input") block))
      else if same kind (lit "tool_result")
      then tool_result (text_at (lit "tool_use_id") block)
          (stringify_tool_result_content (get (lit "content") block))
          (unwrap_or false (get_bool (lit "is_error") block))
      else opaque kind (opaque_descriptor x block)

  pub block_to_canonical : Value → CanonicalBlock
  unfolding block_of_type
  block_to_canonical block = elim (get_str (lit "type") block) [
    | some kind ↦ block_of_type kind block
    | none ↦ opaque (lit "unknown") (opaque_descriptor x block)
  ]

  pub content_blocks : Value → List CanonicalBlock
  unfolding block_to_canonical
  content_blocks (string t) = text t ∷ []
  content_blocks (array blocks) = map block_to_canonical (to_list blocks)
  content_blocks _ = []

  pub message_to_canonical : WireMessage → CanonicalMessage
  unfolding content_blocks
  message_to_canonical message = record {
    role = role_of message.role;
    content = content_blocks message.content;
  }

  pub to_canonical_request : WireRequestFields → CanonicalRequest
  unfolding message_to_canonical extract_system_text
  to_canonical_request fields = record {
    model = fields.model;
    system = and_then fields.system extract_system_text;
    messages = map message_to_canonical fields.messages;
    tools =
        map
          (λ t. record {
            name = t.name;
            description = t.description;
            input_schema = unwrap_or null t.input_schema;
          })
          (unwrap_or [] fields.tools);
    tool_choice = fields.tool_choice;
    max_tokens = fields.max_tokens;
    temperature = fields.temperature;
  }

  unfoldable pub upstream_headers : Str → List (Str × Str) × CanonicalHeaders
  upstream_headers api_key = set_header x (lit "content-type") (lit "application/json") false (
      set_header x (lit "anthropic-version") anthropic_version false
        (set_header x (lit "x-api-key") api_key true ([], [])))

  module _ (d : Decoders) where
    unfoldable pub parse_request : Bytes → Result (Value × Bool × CanonicalRequest) ProviderError
    unfolding to_canonical_request
    parse_request raw_bytes = elim (from_slice raw_bytes) [
      | err e ↦ err (decode_error e)
      | ok raw ↦ elim (d.request_fields raw) [
        | err e ↦ err (decode_error e)
        | ok fields ↦
            ok (raw, unwrap_or false (get_bool (lit "stream") raw), to_canonical_request fields)
      ]
    ]

    unfoldable pub to_canonical_response :
        Value → Result (CanonicalResponse × ProviderMeta × Str) ProviderError
    unfolding block_to_canonical to_canonical_usage
    to_canonical_response raw = elim (d.response raw) [
      | err e ↦ err (decode_error e)
      | ok response ↦
          let stop_reason = unwrap_or [] response.stop_reason in
          ok (
            record {
              model = response.model;
              content = map block_to_canonical response.content;
              stop_reason = stop_reason;
              usage = to_canonical_usage response.usage;
            },
            record {
              stop_reason = stop_reason;
              service_tier = get_str (lit "service_tier") raw;
              inference_geo = get_str (lit "inference_geo") raw;
            },
            text_at (lit "id") raw,
          )
    ]

  -- The request of `call_non_streaming` at `false`, and of `start_streaming` at `true`.
  unfoldable pub upstream_request : Bool → Str → Str → Value → HttpRequest
  unfolding upstream_headers
  upstream_request stream base api_key raw_request = record {
    url = base ++ lit "/v1/messages";
    headers = (upstream_headers api_key).0;
    body = set_field (lit "stream") (bool stream) raw_request;
  }

  -- `send` is `Client::post(..).send()`.
  unfoldable pub call_non_streaming :
      (HttpRequest → Result HttpResponse Str)
      → Str
      → Str
      → Value
      → Result (ℕ × Value × UpstreamMeta) ProviderError
  unfolding upstream_request
  call_non_streaming send base api_key raw_request =
      elim (send (upstream_request false base api_key raw_request)) [
        | err e ↦ err (transport_error e)
        | ok response ↦ read_json x request_id_header response (upstream_headers api_key).1
      ]

  pub start_streaming :
      (HttpRequest → Result HttpResponse Str)
      → Str
      → Str
      → Value
      → Result (HttpResponse × UpstreamMeta) ProviderError
  unfolding upstream_request
  start_streaming send base api_key raw_request =
      elim (send (upstream_request true base api_key raw_request)) [
        | err e ↦ err (transport_error e)
        | ok response ↦
            ok (response, upstream_meta x request_id_header response (upstream_headers api_key).1)
      ]
