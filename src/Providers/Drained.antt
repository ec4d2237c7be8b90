-- ===== src/Providers/Drained.antt =====
-- Both `feed` functions end, and leave no piece behind that they could have taken.
use sekisho.Base.{none, ◌≡◌, ◌++◌}
use sekisho.Text.{Bytes, trim}
use sekisho.Text.Utf8.{from_utf8_lossy}
use sekisho.External.{External}
use sekisho.Providers.Stream.{split_line, split_event}
use sekisho.Providers.Stream.Chunks.{split_line-IsSplit, split_event-IsSplit, drain_done}
use sekisho.Providers.OpenAi.{Decoders}
use sekisho.Providers.OpenAi.Accumulator as OpenAiStream
use sekisho.Providers.Anthropic.Accumulator as AnthropicStream

-- The loop of each `feed` runs to its end on any chunk and from any state: no whole line is left in
-- the buffer of the OpenAI accumulator, and no whole event in that of the Anthropic one.
pub feed_drained :
    (x : External) (d : Decoders) (chat : OpenAiStream.StreamAccumulator)
    (messages : AnthropicStream.StreamAccumulator) (chunk : Bytes)
    → (split_line (OpenAiStream.feed x d chat chunk).buffer ≡ none)
      × (split_event (AnthropicStream.feed x messages chunk).buffer ≡ none)
unfolding OpenAiStream.feed AnthropicStream.feed
feed_drained x d chat messages chunk = (
  drain_done split_line-IsSplit (λ a line. OpenAiStream.handle_line x d a (trim line))
      chat.accumulated (chat.buffer ++ from_utf8_lossy chunk),
  drain_done split_event-IsSplit (AnthropicStream.handle_event_block x) messages.accumulated
      (messages.buffer ++ from_utf8_lossy chunk),
)
