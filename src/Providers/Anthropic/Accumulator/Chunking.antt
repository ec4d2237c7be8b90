-- ===== src/Providers/Anthropic/Accumulator/Chunking.antt =====
-- `feed` does not depend on how the network cuts the stream into chunks.
use sekisho.Base.{Option, All, List, [], ◌∷◌, ◌++◌, ◌≡◌, sym, ap, ◌∙◌}
use mathlib.Core.List.{append_assoc, append-nil, flatten}
use sekisho.Text.{Str, Bytes}
use sekisho.Text.Utf8.{from_utf8_lossy, from_utf8_lossy-append, IsWhole}
use sekisho.External.{External}
use sekisho.Providers.Stream.{split_event, drain}
use sekisho.Providers.Stream.Chunks.{split_event-IsSplit, drain-append}
use sekisho.Providers.Anthropic.Accumulator.{
  Accumulated, StreamAccumulator, handle_event_block, feed,
}

module _ (x : External) where
  abbrev assembled : Option Accumulated × Str → StreamAccumulator
  assembled (accumulated, buffer) = record { buffer = buffer; accumulated = accumulated }

  feed-append :
      (acc : StreamAccumulator) (front back : Bytes)
      → IsWhole front
      → feed x (feed x acc front) back ≡ feed x acc (front ++ back)
  unfolding feed
  feed-append acc front back h = ap assembled (
      sym (
        drain-append split_event-IsSplit (handle_event_block x) acc.accumulated
          (acc.buffer ++ from_utf8_lossy front) (from_utf8_lossy back))
      ∙ ap (drain split_event (handle_event_block x) acc.accumulated) (
          append_assoc acc.buffer (from_utf8_lossy front) (from_utf8_lossy back)
          ∙ ap (◌++◌ acc.buffer) (sym (from_utf8_lossy-append front back h))))

  abbrev pub feed_all : StreamAccumulator → List Bytes → StreamAccumulator
  feed_all acc [] = acc
  feed_all acc (chunk ∷ chunks) = feed_all (feed x acc chunk) chunks

  -- However the network cuts a stream into chunks, the accumulator ends as if it had been fed all
  -- the bytes at once, if no cut is within a character.
  pub feed_all-flatten_events :
      (acc : StreamAccumulator) (chunk : Bytes) (chunks : List Bytes)
      → All IsWhole (chunk ∷ chunks)
      → feed_all acc (chunk ∷ chunks) ≡ feed x acc (flatten (chunk ∷ chunks))
  unfolding flatten
  feed_all-flatten_events acc chunk [] h = ap (feed x acc) (sym (append-nil chunk))
  feed_all-flatten_events acc chunk (next ∷ chunks) (h, hs) =
      feed_all-flatten_events (feed x acc chunk) next chunks hs
      ∙ feed-append acc chunk (flatten (next ∷ chunks)) h
