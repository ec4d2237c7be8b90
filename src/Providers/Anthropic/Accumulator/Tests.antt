-- ===== src/Providers/Anthropic/Accumulator/Tests.antt =====
-- providers/anthropic.rs: the tests of the accumulator that stand beside the code, on the model.
use sekisho.Base.{List, [], ◌∷◌, ◌++◌, some, ok, err, ok_value, map_option, take, drop, ◌≡◌, refl}
use sekisho.Text.{
  Str, lit, trim, trim_start, trim_end, keep_before, is_whitespace, strip_prefix, starts_with,
}
use sekisho.Text.Utf8.{from_utf8_lossy, decode, decode_byte, decode_end, first_byte, next_byte}
use sekisho.Json.{Value, string}
use sekisho.Canonical.{text}
use sekisho.External.{External}
use sekisho.Fixtures.{obj, num, knows}
use sekisho.Providers.Stream.{split_event, drain, drain_loop, lines, lines_from}
use sekisho.Providers.Anthropic.{
  Decoders, WireResponse, merge_from, block_to_canonical, to_canonical_response, to_canonical_usage,
}
use sekisho.Providers.Anthropic.Accumulator.{
  StreamAccumulator, new, feed, finish, handle_event_block, handle_lines, handle_line, handle_data,
  apply_event, message_start, content_block_start, content_block_delta, message_delta, merged,
  store, amend, from_start, block_start, apply_delta, into_canonical,
}

abbrev decoders : WireResponse → Decoders
decoders response = record {
  request_fields = λ _. err (lit "no request");
  response = λ _. ok response;
}

-- One `feed` for each event of a table.
abbrev feed_events : External → List (Str × Value) → StreamAccumulator → StreamAccumulator
unfolding feed
feed_events x [] acc = acc
feed_events x ((event, _) ∷ events) acc =
    feed_events x events (feed x acc (lit "data: " ++ event ++ lit "\n\n"))

abbrev block_event : Value
block_event = obj (
    (lit "type", string (lit "content_block_start"))
    ∷ (lit "index", num 0)
    ∷ (lit "content_block", obj ((lit "type", string (lit "text")) ∷ (lit "text", string []) ∷ []))
    ∷ [])

abbrev delta_event : Str → Value
delta_event piece = obj (
    (lit "type", string (lit "content_block_delta"))
    ∷ (lit "index", num 0)
    ∷ (lit "delta", obj ((lit "type", string (lit "text_delta")) ∷ (lit "text", string piece) ∷ []))
    ∷ [])

abbrev block_text : Str
block_text =
    lit
      "{\"type\":\"content_block_start\",\"index\":0,\"content_block\":{\"type\":\"text\",\"text\":\"\"}}"

abbrev hello_events : List (Str × Value)
hello_events =
    (
      lit
          "{\"type\":\"message_start\",\"message\":{\"model\":\"claude-sonnet-5\",\"usage\":{\"input_tokens\":10,\"output_tokens\":0}}}",
      obj (
          (lit "type", string (lit "message_start"))
          ∷ (
            lit "message",
            obj (
                (lit "model", string (lit "claude-sonnet-5"))
                ∷ (
                  lit "usage",
                  obj ((lit "input_tokens", num 10) ∷ (lit "output_tokens", num 0) ∷ []),
                )
                ∷ []),
          )
          ∷ []),
    )
    ∷ (block_text, block_event)
    ∷ (
      lit
          "{\"type\":\"content_block_delta\",\"index\":0,\"delta\":{\"type\":\"text_delta\",\"text\":\"Hello, \"}}",
      delta_event (lit "Hello, "),
    )
    ∷ (
      lit
          "{\"type\":\"content_block_delta\",\"index\":0,\"delta\":{\"type\":\"text_delta\",\"text\":\"world!\"}}",
      delta_event (lit "world!"),
    )
    ∷ (
      lit "{\"type\":\"content_block_stop\",\"index\":0}",
      obj ((lit "type", string (lit "content_block_stop")) ∷ (lit "index", num 0) ∷ []),
    )
    ∷ (
      lit
          "{\"type\":\"message_delta\",\"delta\":{\"stop_reason\":\"end_turn\"},\"usage\":{\"output_tokens\":3}}",
      obj (
          (lit "type", string (lit "message_delta"))
          ∷ (lit "delta", obj ((lit "stop_reason", string (lit "end_turn")) ∷ []))
          ∷ (lit "usage", obj ((lit "output_tokens", num 3) ∷ []))
          ∷ []),
    )
    ∷ (lit "{\"type\":\"message_stop\"}", obj ((lit "type", string (lit "message_stop")) ∷ []))
    ∷ []

-- The response that says the same at once, and what serde makes of it.
abbrev hello_value : Value
hello_value = obj ((lit "model", string (lit "claude-sonnet-5")) ∷ [])

abbrev hello_response : WireResponse
hello_response = record {
  model = lit "claude-sonnet-5";
  content =
      obj ((lit "type", string (lit "text")) ∷ (lit "text", string (lit "Hello, world!")) ∷ [])
      ∷ [];
  stop_reason = some (lit "end_turn");
  usage = record {
    input_tokens = 10;
    output_tokens = 3;
    cache_creation_input_tokens = 0;
    cache_read_input_tokens = 0;
  };
}

abbrev StreamMatchesNonStreaming : Type 0
unfolding feed finish to_canonical_response
StreamMatchesNonStreaming =
    let x = knows hello_events in
    map_option (λ a. finish x a (lit "fallback-model")) (feed_events x hello_events new).accumulated
    ≡ ok_value (to_canonical_response x (decoders hello_response) hello_value)

stream_matches_non_streaming : StreamMatchesNonStreaming
unfolding feed finish to_canonical_response drain drain_loop split_event lines lines_from
    from_utf8_lossy decode decode_byte decode_end first_byte next_byte handle_event_block
    handle_lines handle_line handle_data strip_prefix starts_with trim trim_start trim_end
    keep_before is_whitespace apply_event message_start content_block_start content_block_delta
    message_delta merged merge_from store amend from_start block_start apply_delta into_canonical
    block_to_canonical to_canonical_usage
stream_matches_non_streaming = refl

-- The first event in two chunks of half its length.
abbrev StreamHandlesSplitEvent : Type 0
unfolding feed finish
StreamHandlesSplitEvent =
    let ok_text =
      lit
        "{\"type\":\"content_block_delta\",\"index\":0,\"delta\":{\"type\":\"text_delta\",\"text\":\"ok\"}}" in
    let x = knows ((block_text, block_event) ∷ (ok_text, delta_event (lit "ok")) ∷ []) in
    let full = lit "data: " ++ block_text ++ lit "\n\n" in
    let acc = feed x (feed x new (take 45 full)) (drop 45 full) in
    map_option (λ a. (finish x a (lit "m")).0.content)
      (feed x acc (lit "data: " ++ ok_text ++ lit "\n\n")).accumulated
    ≡ some (text (lit "ok") ∷ [])

stream_handles_split_event : StreamHandlesSplitEvent
unfolding feed finish drain drain_loop split_event lines lines_from from_utf8_lossy decode
    decode_byte decode_end first_byte next_byte handle_event_block handle_lines handle_line
    handle_data strip_prefix starts_with trim trim_start trim_end keep_before is_whitespace
    apply_event message_start content_block_start content_block_delta message_delta merged
    merge_from store amend from_start block_start apply_delta into_canonical to_canonical_usage
stream_handles_split_event = refl
