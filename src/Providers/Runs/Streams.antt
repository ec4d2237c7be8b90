-- ===== src/Providers/Runs/Streams.antt =====
-- Assembled streams beside the responses that say the same.
use sekisho.Base.{
  inr, true, ◌-◌, ◌^◌, List, [], ◌∷◌, none, some, ok, err, ◌≡◌, ◌↔◌, any, refl, arith,
}
use sekisho.Text.{Str, lit, strip_prefix, trim}
use sekisho.External.{External}
use sekisho.Json.{Value, string}
use sekisho.Fixtures.{external, obj, num, knows}
use sekisho.Providers.OpenAi
use sekisho.Providers.OpenAi.Accumulator as OpenAiStream
use sekisho.Providers.OpenAi.Accumulator.Same.{wire_response, to_canonical_response-finish}
use sekisho.Providers.Anthropic
use sekisho.Providers.Anthropic.Accumulator as AnthropicStream
use sekisho.Providers.Anthropic.Accumulator.Same.{to_canonical_response-finish_blocks}
use sekisho.Providers.Anthropic.Accumulator.Events.{events_of}
use sekisho.Providers.Anthropic.Accumulator.Panics.{handle_lines-none}
use sekisho.Providers.Anthropic.Accumulator.Growth.{ends_process}

abbrev chat : OpenAiStream.Accumulated
chat = record {
  model = some (lit "gpt-4o");
  text = lit "hi";
  tool_calls = (0, record { id = lit "call-1"; name = lit "f"; arguments = [] }) ∷ [];
  finish_reason = some (lit "stop");
  usage = record { prompt_tokens = 7; completion_tokens = 3; prompt_tokens_details = none };
  done = true;
  id = some (lit "1");
  service_tier = none;
  inference_geo = none;
}

abbrev chat_decoders : OpenAi.Decoders
chat_decoders = record {
  request_fields = λ _. err (lit "no request");
  response = λ _. ok (wire_response chat (lit "fallback"));
  usage = λ _. err (lit "no usage");
}

abbrev chat_value : Value
chat_value = obj ((lit "id", string (lit "1")) ∷ [])

to_canonical_response-finish_example :
    OpenAi.to_canonical_response external chat_decoders chat_value
    ≡ ok (OpenAiStream.finish external chat_decoders chat (lit "fallback"))
to_canonical_response-finish_example =
    to_canonical_response-finish external chat_decoders chat (lit "fallback") chat_value refl refl
      refl refl

-- A block of a type that the adapter does not model.
abbrev thought : Value
thought = obj ((lit "type", string (lit "thinking")) ∷ [])

-- A text behind an index that no event started, a tool whose input came in one piece, and a thought.
abbrev message : AnthropicStream.Accumulated
message = record {
  model = some (lit "claude-sonnet-5");
  blocks =
      none
      ∷ some (AnthropicStream.acc_text (lit "hi"))
      ∷ some (AnthropicStream.acc_tool_use (lit "t1") (lit "now") (lit "{}"))
      ∷ some (AnthropicStream.acc_opaque (lit "thinking") thought)
      ∷ [];
  stop_reason = some (lit "end_turn");
  usage = record {
    input_tokens = 10;
    output_tokens = 3;
    cache_creation_input_tokens = 0;
    cache_read_input_tokens = 0;
  };
  id = none;
  service_tier = none;
  inference_geo = none;
}

abbrev blocks : List Value
blocks =
    obj ((lit "type", string (lit "text")) ∷ (lit "text", string (lit "hi")) ∷ [])
    ∷ obj (
        (lit "type", string (lit "tool_use"))
        ∷ (lit "id", string (lit "t1"))
        ∷ (lit "name", string (lit "now"))
        ∷ (lit "input", obj [])
        ∷ [])
    ∷ thought
    ∷ []

abbrev message_decoders : Anthropic.Decoders
message_decoders = record {
  request_fields = λ _. err (lit "no request");
  response = λ _. ok (record {
    model = lit "claude-sonnet-5";
    content = blocks;
    stop_reason = some (lit "end_turn");
    usage = message.usage;
  });
}

-- The reader of the one partial input.
abbrev reader : External
reader = knows ((lit "{}", obj []) ∷ [])

to_canonical_response-finish_blocks_example :
    Anthropic.to_canonical_response reader message_decoders (obj [])
    ≡ ok (AnthropicStream.finish reader message (lit "fallback"))
unfolding trim
to_canonical_response-finish_blocks_example =
    to_canonical_response-finish_blocks reader message_decoders message (lit "fallback") (obj [])
      blocks
      ((refl, refl), ((refl, refl, refl, obj [], refl, inr (refl, refl)), ((refl, refl, refl), tt)))
      refl refl refl refl

abbrev panicking_lines : List Str
panicking_lines = lit "event: content_block_start" ∷ lit "data: 1" ∷ []

-- An event that starts a block at the last index.
abbrev last_event : Value
last_event =
    obj ((lit "type", string (lit "content_block_start")) ∷ (lit "index", num (2 ^ 64 - 1)) ∷ [])

abbrev table : List (Str × Value)
table = (lit "1", last_event) ∷ []

handle_lines-none_example :
    (AnthropicStream.handle_lines (knows table) (some AnthropicStream.empty) panicking_lines ≡ none)
    ↔ (any (ends_process (knows table).max_blocks) (events_of (knows table) panicking_lines) ≡ true)
unfolding strip_prefix trim
handle_lines-none_example =
    handle_lines-none (knows table) panicking_lines (omega arith) (omega arith, tt)
