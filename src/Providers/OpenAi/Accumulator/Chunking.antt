-- ===== src/Providers/OpenAi/Accumulator/Chunking.antt =====
-- `feed` does not depend on how the network cuts the stream into chunks.
use sekisho.Base.{All, List, [], ◌∷◌, ◌++◌, ◌≡◌, sym, ap, ◌∙◌}
use mathlib.Core.List.{append_assoc, append-nil, flatten}
use sekisho.Text.{Str, Bytes, trim}
use sekisho.Text.Utf8.{from_utf8_lossy, from_utf8_lossy-append, IsWhole}
use sekisho.External.{External}
use sekisho.Providers.Stream.{split_line, drain}
use sekisho.Providers.Stream.Chunks.{split_line-IsSplit, drain-append}
use sekisho.Providers.OpenAi.{Decoders}
use sekisho.Providers.OpenAi.Accumulator.{Accumulated, StreamAccumulator, handle_line, feed}

module _ (x : External) (d : Decoders) where
  abbrev assembled : Accumulated × Str → StreamAccumulator
  assembled (accumulated, buffer) = record { buffer = buffer; accumulated = accumulated }

  feed-append :
      (acc : StreamAccumulator) (front back : Bytes)
      → IsWhole front
      → feed x d (feed x d acc front) back ≡ feed x d acc (front ++ back)
  unfolding feed
  feed-append acc front back h = ap assembled (
      sym (
        drain-append split_line-IsSplit (λ a line. handle_line x d a (trim line)) acc.accumulated
          (acc.buffer ++ from_utf8_lossy front) (from_utf8_lossy back))
      ∙ ap (drain split_line (λ a line. handle_line x d a (trim line)) acc.accumulated) (
          append_assoc acc.buffer (from_utf8_lossy front) (from_utf8_lossy back)
          ∙ ap (◌++◌ acc.buffer) (sym (from_utf8_lossy-append front back h))))

  abbrev pub feed_all : StreamAccumulator → List Bytes → StreamAccumulator
  feed_all acc [] = acc
  feed_all acc (chunk ∷ chunks) = feed_all (feed x d acc chunk) chunks

  -- However the network cuts a stream into chunks, the accumulator ends as if it had been fed all
  -- the bytes at once, if no cut is within a character.
  pub feed_all-flatten :
      (acc : StreamAccumulator) (chunk : Bytes) (chunks : List Bytes)
      → All IsWhole (chunk ∷ chunks)
      → feed_all acc (chunk ∷ chunks) ≡ feed x d acc (flatten (chunk ∷ chunks))
  unfolding flatten
  feed_all-flatten acc chunk [] h = ap (feed x d acc) (sym (append-nil chunk))
  feed_all-flatten acc chunk (next ∷ chunks) (h, hs) =
      feed_all-flatten (feed x d acc chunk) next chunks hs
      ∙ feed-append acc chunk (flatten (next ∷ chunks)) h
