-- ===== src/Providers/OpenAi/Accumulator/Tests.antt =====
-- providers/openai.rs: the tests of the accumulator that stand beside the code, on the model.
use sekisho.Base.{List, [], ◌∷◌, ◌++◌, none, some, ok, err, unwrap_or, ◌≡◌, refl}
use sekisho.Text.{
  Str, lit, trim, trim_start, trim_end, keep_before, is_whitespace, strip_prefix, starts_with,
}
use sekisho.Text.Utf8.{from_utf8_lossy, decode, decode_byte, decode_end, first_byte, next_byte}
use sekisho.Json.{Value, null, string, get_u64}
use sekisho.Canonical.{tool_use}
use sekisho.External.{External}
use sekisho.Fixtures.{obj, arr, num, knows}
use sekisho.Providers.Stream.{split_line, drain, drain_loop}
use sekisho.Providers.OpenAi.{
  Decoders, WireUsage, WireResponse, to_canonical_response, to_canonical_usage, stringify_content,
  tool_call_to_block, arguments_input,
}
use sekisho.Providers.OpenAi.Accumulator.{
  StreamAccumulator, new, feed, finish, handle_line, handle_data, apply_chunk, apply_choice,
  apply_delta, apply_tool_calls, entry, extend_call, function_field,
}

-- `serde_json::from_value` at the counters of these tests.
abbrev read_usage : Value → WireUsage
read_usage value = record {
  prompt_tokens = unwrap_or 0 (get_u64 (lit "prompt_tokens") value);
  completion_tokens = unwrap_or 0 (get_u64 (lit "completion_tokens") value);
  prompt_tokens_details = none;
}

abbrev decoders : WireResponse → Decoders
decoders response = record {
  request_fields = λ _. err (lit "no request");
  response = λ _. ok response;
  usage = λ value. ok (read_usage value);
}

-- One `feed` for each line of a table, and one for the end.
abbrev feed_lines : External → Decoders → List (Str × Value) → StreamAccumulator → StreamAccumulator
unfolding feed
feed_lines x d [] acc = acc
feed_lines x d ((line, _) ∷ lines) acc =
    feed_lines x d lines (feed x d acc (lit "data: " ++ line ++ lit "\n"))

abbrev delta_chunk : List (Str × Value) → Value → Value
delta_chunk delta finish_reason = obj (
    (lit "id", string (lit "1"))
    ∷ (lit "model", string (lit "gpt-5.2"))
    ∷ (
      lit "choices",
      arr (
          obj (
            (lit "index", num 0)
            ∷ (lit "delta", obj delta)
            ∷ (lit "finish_reason", finish_reason)
            ∷ [])
          ∷ []),
    )
    ∷ [])

abbrev hello_lines : List (Str × Value)
hello_lines =
    (
      lit
          "{\"id\":\"1\",\"model\":\"gpt-5.2\",\"choices\":[{\"index\":0,\"delta\":{\"role\":\"assistant\"},\"finish_reason\":null}]}",
      delta_chunk ((lit "role", string (lit "assistant")) ∷ []) null,
    )
    ∷ (
      lit
          "{\"id\":\"1\",\"model\":\"gpt-5.2\",\"choices\":[{\"index\":0,\"delta\":{\"content\":\"Hello, \"},\"finish_reason\":null}]}",
      delta_chunk ((lit "content", string (lit "Hello, ")) ∷ []) null,
    )
    ∷ (
      lit
          "{\"id\":\"1\",\"model\":\"gpt-5.2\",\"choices\":[{\"index\":0,\"delta\":{\"content\":\"world!\"},\"finish_reason\":null}]}",
      delta_chunk ((lit "content", string (lit "world!")) ∷ []) null,
    )
    ∷ (
      lit
          "{\"id\":\"1\",\"model\":\"gpt-5.2\",\"choices\":[{\"index\":0,\"delta\":{},\"finish_reason\":\"stop\"}]}",
      delta_chunk [] (string (lit "stop")),
    )
    ∷ (
      lit
          "{\"id\":\"1\",\"model\":\"gpt-5.2\",\"choices\":[],\"usage\":{\"prompt_tokens\":7,\"completion_tokens\":3}}",
      obj (
          (lit "id", string (lit "1"))
          ∷ (lit "model", string (lit "gpt-5.2"))
          ∷ (lit "choices", arr [])
          ∷ (
            lit "usage",
            obj ((lit "prompt_tokens", num 7) ∷ (lit "completion_tokens", num 3) ∷ []),
          )
          ∷ []),
    )
    ∷ []

-- The response that says the same at once, and what serde makes of it.
abbrev hello_value : Value
hello_value = obj ((lit "id", string (lit "1")) ∷ (lit "model", string (lit "gpt-5.2")) ∷ [])

abbrev hello_response : WireResponse
hello_response = record {
  model = lit "gpt-5.2";
  choices =
      record {
        message = record { content = some (string (lit "Hello, world!")); tool_calls = none };
        finish_reason = some (lit "stop");
      }
      ∷ [];
  usage = record { prompt_tokens = 7; completion_tokens = 3; prompt_tokens_details = none };
}

abbrev StreamMatchesNonStreaming : Type 0
unfolding feed finish to_canonical_response
StreamMatchesNonStreaming =
    let x = knows hello_lines in
    let d = decoders hello_response in
    let acc = feed x d (feed_lines x d hello_lines new) (lit "data: [DONE]\n") in
    to_canonical_response x d hello_value ≡ ok (finish x d acc.accumulated (lit "fallback"))

stream_matches_non_streaming : StreamMatchesNonStreaming
unfolding feed finish to_canonical_response drain drain_loop split_line from_utf8_lossy decode
    decode_byte decode_end first_byte next_byte handle_line handle_data strip_prefix starts_with
    trim trim_start trim_end keep_before is_whitespace apply_chunk apply_choice apply_delta
    apply_tool_calls entry extend_call function_field stringify_content tool_call_to_block
    arguments_input to_canonical_usage
stream_matches_non_streaming = refl

-- A chunk with one piece of a call.
abbrev call_chunk : List (Str × Value) → Value → Value
call_chunk call finish_reason = obj (
    (
      lit "choices",
      arr (
          obj (
            (lit "index", num 0)
            ∷ (
              lit "delta",
              obj ((lit "tool_calls", arr (obj ((lit "index", num 0) ∷ call) ∷ [])) ∷ []),
            )
            ∷ (lit "finish_reason", finish_reason)
            ∷ [])
          ∷ []),
    )
    ∷ [])

abbrev arguments_piece : Str → List (Str × Value)
arguments_piece piece = (lit "function", obj ((lit "arguments", string piece) ∷ [])) ∷ []

abbrev call_lines : List (Str × Value)
call_lines =
    (
      lit
          "{\"choices\":[{\"index\":0,\"delta\":{\"tool_calls\":[{\"index\":0,\"id\":\"call_1\",\"function\":{\"name\":\"get_weather\",\"arguments\":\"\"}}]},\"finish_reason\":null}]}",
      call_chunk
          ((lit "id", string (lit "call_1"))
            ∷ (
              lit "function",
              obj ((lit "name", string (lit "get_weather")) ∷ (lit "arguments", string []) ∷ []),
            )
            ∷ [])
          null,
    )
    ∷ (
      lit
          "{\"choices\":[{\"index\":0,\"delta\":{\"tool_calls\":[{\"index\":0,\"function\":{\"arguments\":\"{\\\"city\\\":\"}}]},\"finish_reason\":null}]}",
      call_chunk (arguments_piece (lit "{\"city\":")) null,
    )
    ∷ (
      lit
          "{\"choices\":[{\"index\":0,\"delta\":{\"tool_calls\":[{\"index\":0,\"function\":{\"arguments\":\"\\\"NYC\\\"}\"}}]},\"finish_reason\":\"tool_calls\"}]}",
      call_chunk (arguments_piece (lit "\"NYC\"}")) (string (lit "tool_calls")),
    )
    ∷ []

abbrev city : Value
city = obj ((lit "city", string (lit "NYC")) ∷ [])

abbrev StreamConcatenatesArguments : Type 0
unfolding feed finish
StreamConcatenatesArguments =
    let x = knows (call_lines ++ (lit "{\"city\":\"NYC\"}", city) ∷ []) in
    let d = decoders hello_response in
    (finish x d (feed_lines x d call_lines new).accumulated (lit "m")).0.content
    ≡ tool_use (lit "call_1") (lit "get_weather") city ∷ []

stream_concatenates_arguments : StreamConcatenatesArguments
unfolding feed finish drain drain_loop split_line from_utf8_lossy decode decode_byte decode_end
    first_byte next_byte handle_line handle_data strip_prefix starts_with trim trim_start trim_end
    keep_before is_whitespace apply_chunk apply_choice apply_delta apply_tool_calls entry
    extend_call function_field arguments_input to_canonical_usage
stream_concatenates_arguments = refl
