-- ===== src/Providers/Runs.antt =====
-- The two stream accumulators at a stream in two chunks, and the counters of a response.
mod Streams
use mathlib.Core.List.{flatten}
use sekisho.Base.{
  true, false, ◌+◌, ◌++◌, List, [], ◌∷◌, map, none, some, ok, err, ◌≡◌, refl, All, arith, unwrap_or,
  is_empty, if◌then◌else◌, same,
}
use sekisho.Text.{Str, Bytes, lit, strip_prefix, trim}
use sekisho.Canonical.{text}
use sekisho.External.{External}
use sekisho.Text.Utf8.{IsWhole, ascii-IsWhole}
use sekisho.Json.{
  Value, Fields, object, field, end, string, bool, number, pos_int, array, object_of, of_list, get,
  get_str,
}
use sekisho.Providers.OpenAi
use sekisho.Providers.Anthropic
use sekisho.Providers.Requests.{get-requests, upstream_headers-redacted}
use sekisho.Fixtures.{external, ascii-All}
use sekisho.Providers.OpenAi.{Decoders, WireUsage}
use sekisho.Providers.Drained.{feed_drained}
use sekisho.Providers.Stream.{split_line, split_event}
use sekisho.Providers.OpenAi.Accumulator.Order.{IsAbove, call_at, extended}
use sekisho.Providers.OpenAi.Accumulator.Deltas.{
  chunk_text, chunk_calls, chunk_end, latest, handle_lines, chunks_of, finish-handle_lines,
  tool_calls-IsAbove,
}
use sekisho.Providers.Anthropic.Accumulator.Blocks.{block_at, block_after}
use sekisho.Providers.Anthropic.Accumulator.Events.{events_of, block_at-handle_lines}
use sekisho.Providers.OpenAi.Accumulator as OpenAiStream
use sekisho.Providers.OpenAi.Accumulator.Chunking as OpenAiChunking
use sekisho.Providers.Anthropic.Accumulator as AnthropicStream
use sekisho.Providers.Anthropic.Accumulator.Chunking as AnthropicChunking

abbrev decoders : Decoders
decoders = record {
  request_fields = λ _. err (lit "no request");
  response = λ _. err (lit "no response");
  usage = λ _. err (lit "no usage");
}

-- A line that the network cuts behind its second byte.
abbrev cut : List Bytes
cut = lit "da" ∷ lit "ta: {}\n\n" ∷ []

cut-IsWhole : All IsWhole cut
cut-IsWhole = (
  ascii-IsWhole (lit "da") (ascii-All (lit "da") refl),
  (ascii-IsWhole (lit "ta: {}\n\n") (ascii-All (lit "ta: {}\n\n") refl), tt),
)

feed_all-flatten_example :
    OpenAiChunking.feed_all external decoders OpenAiStream.new cut
    ≡ OpenAiStream.feed external decoders OpenAiStream.new (flatten cut)
feed_all-flatten_example =
    OpenAiChunking.feed_all-flatten external decoders OpenAiStream.new (lit "da")
      (lit "ta: {}\n\n" ∷ []) cut-IsWhole

feed_all-flatten_events_example :
    AnthropicChunking.feed_all external AnthropicStream.new cut
    ≡ AnthropicStream.feed external AnthropicStream.new (flatten cut)
feed_all-flatten_events_example =
    AnthropicChunking.feed_all-flatten_events external AnthropicStream.new (lit "da")
      (lit "ta: {}\n\n" ∷ []) cut-IsWhole

abbrev usage : WireUsage
usage = record {
  prompt_tokens = 15;
  completion_tokens = 4;
  prompt_tokens_details = some (record { cached_tokens = 3 });
}

abbrev body : Fields
body = field (lit "model") (string (lit "gpt-4o")) (field (lit "stream") (bool true) end)

get-requests_example :
    let sent = object body in
    (get
        (lit "model")
        (OpenAi.non_streaming_request external (lit "https://o") (lit "sk") sent).body
      ≡ (if same (lit "model") (lit "stream") then some (bool false) else get (lit "model") sent))
    × (get (lit "model") (OpenAi.streaming_request external (lit "https://o") (lit "sk") sent).body
        ≡ (if same (lit "model") (lit "stream_options")
            then some (object (field (lit "include_usage") (bool true) end))
            else if same (lit "model") (lit "stream")
            then some (bool true)
            else get (lit "model") sent))
    × (get
          (lit "model")
          (Anthropic.upstream_request external true (lit "https://o") (lit "sk") sent).body
        ≡ (if same (lit "model") (lit "stream") then some (bool true) else get (lit "model") sent))
get-requests_example = get-requests external (lit "https://o") (lit "sk") (lit "model") body true

upstream_headers-redacted_example :
    ((OpenAi.upstream_headers external (lit "sk")).1
      ≡ (OpenAi.upstream_headers external (lit "other")).1)
    × ((Anthropic.upstream_headers external (lit "sk")).1
        ≡ (Anthropic.upstream_headers external (lit "other")).1)
upstream_headers-redacted_example = upstream_headers-redacted external (lit "sk") (lit "other")

feed_drained_example :
    (split_line (OpenAiStream.feed external decoders OpenAiStream.new (lit "data: {}\nda")).buffer
      ≡ none)
    × (split_event (AnthropicStream.feed external AnthropicStream.new (lit "data: {}\nda")).buffer
        ≡ none)
feed_drained_example =
    feed_drained external decoders OpenAiStream.new AnthropicStream.new (lit "data: {}\nda")

-- Crates whose JSON parser always reads this chunk.
abbrev chat_chunk : Value
chat_chunk = object (
    object_of (
      (lit "model", string (lit "gpt-4o"))
      ∷ (
        lit "choices",
        array (
            of_list (
              object (
                object_of (
                  (
                    lit "delta",
                    object (
                        object_of (
                          (lit "content", string (lit "hi"))
                          ∷ (
                            lit "tool_calls",
                            array (
                                of_list (
                                  object (object_of ((lit "id", string (lit "call-1")) ∷ []))
                                  ∷ [])),
                          )
                          ∷ [])),
                  )
                  ∷ []))
              ∷ [])),
      )
      ∷ []))

abbrev chat_lines : List Str
chat_lines = lit "data: 1" ∷ lit "" ∷ lit "data: 2" ∷ lit "data: [DONE]" ∷ []

abbrev reads : Value → External
reads value = record external { from_str = λ _. ok value }

finish-handle_lines_example :
    let chunks = chunks_of (reads chat_chunk) decoders chat_lines in
    let joined = flatten (map chunk_text chunks) in
    let (response, meta, request_id) =
      OpenAiStream.finish
        (reads chat_chunk)
        decoders
        (handle_lines (reads chat_chunk) decoders chat_lines)
        (lit "gpt-4o") in
    (response.model ≡ unwrap_or (lit "gpt-4o") (latest (get_str (lit "model")) none chunks))
    × (response.content
        ≡ (if is_empty joined then [] else text joined ∷ [])
          ++ map
              (OpenAiStream.call_block (reads chat_chunk) decoders)
              (OpenAiStream.apply_tool_calls (flatten (map chunk_calls chunks)) []))
    × (response.stop_reason ≡ unwrap_or [] (latest chunk_end none chunks))
    × (request_id ≡ unwrap_or [] (latest (get_str (lit "id")) none chunks))
finish-handle_lines_example =
    finish-handle_lines (reads chat_chunk) decoders chat_lines (lit "gpt-4o")

tool_calls-IsAbove_example :
    IsAbove 0 (handle_lines (reads chat_chunk) decoders chat_lines).tool_calls
    × (call_at 0 (handle_lines (reads chat_chunk) decoders chat_lines).tool_calls
        ≡ extended 0
            (flatten (map chunk_calls (chunks_of (reads chat_chunk) decoders chat_lines)))
            none)
tool_calls-IsAbove_example = tool_calls-IsAbove (reads chat_chunk) decoders 0 chat_lines

-- An event that starts the second block.
abbrev start_event : Value
start_event = object (
    object_of (
      (lit "type", string (lit "content_block_start"))
      ∷ (lit "index", number (pos_int 1))
      ∷ (lit "content_block", object (object_of ((lit "type", string (lit "text")) ∷ [])))
      ∷ []))

abbrev event_lines : List Str
event_lines = lit "event: content_block_start" ∷ lit "data: 1" ∷ []

block_at-handle_lines_example :
    (next : AnthropicStream.Accumulated) × (AnthropicStream.handle_lines
        (reads start_event)
        (some AnthropicStream.empty)
        event_lines
      ≡ some next)
    × (block_at 1 next.blocks
        ≡ block_after 1
            (events_of (reads start_event) event_lines)
            (block_at 1 AnthropicStream.empty.blocks))
unfolding strip_prefix trim
block_at-handle_lines_example =
    block_at-handle_lines (reads start_event) 1 AnthropicStream.empty event_lines (omega arith)
      (omega arith, tt)
