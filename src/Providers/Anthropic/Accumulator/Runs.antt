-- ===== src/Providers/Anthropic/Accumulator/Runs.antt =====
-- A stream with a thought.
use sekisho.Base.{List, [], ◌∷◌, some, ◌≡◌, refl, arith}
use sekisho.Text.{Str, lit, strip_prefix, trim}
use sekisho.Json.{Value, string}
use sekisho.Fixtures.{obj, num, knows}
use sekisho.Providers.Anthropic.Accumulator.{
  Accumulated, acc_opaque, empty, content_block_start, store, from_start, block_start, apply_event,
  handle_data, handle_line, handle_lines,
}
use sekisho.Providers.Anthropic.Accumulator.Opaque.{handle_lines_opaque}

abbrev thought : Value
thought = obj (
    (lit "type", string (lit "content_block_delta"))
    ∷ (lit "index", num 0)
    ∷ (
      lit "delta",
      obj ((lit "type", string (lit "thinking_delta")) ∷ (lit "thinking", string (lit "hm")) ∷ []),
    )
    ∷ [])

abbrev thinking : Value
thinking = obj ((lit "type", string (lit "thinking")) ∷ [])

abbrev thinking_start : Value
thinking_start = obj (
    (lit "type", string (lit "content_block_start"))
    ∷ (lit "index", num 0)
    ∷ (lit "content_block", thinking)
    ∷ [])

abbrev thoughts : List (Str × Value)
thoughts = (lit "1", thinking_start) ∷ (lit "2", thought) ∷ []

abbrev thought_started : Accumulated
thought_started = record empty { blocks = some (acc_opaque (lit "thinking") thinking) ∷ [] }

start_thinking :
    handle_lines (knows thoughts) (some empty) (lit "data: 1" ∷ []) ≡ some thought_started
unfolding handle_lines handle_line handle_data apply_event content_block_start store from_start
    block_start strip_prefix trim
start_thinking = refl

handle_lines_opaque_example :
    handle_lines (knows thoughts) (some empty) (lit "data: 1" ∷ lit "data: 2" ∷ lit "data: 2" ∷ [])
    ≡ handle_lines (knows thoughts) (some empty) (lit "data: 1" ∷ lit "data: 2" ∷ [])
unfolding strip_prefix trim
handle_lines_opaque_example =
    handle_lines_opaque (knows thoughts) (some empty) (lit "data: 1" ∷ []) (lit "data: 2" ∷ [])
      (lit "data: 2") (lit " 2") thought thought_started (lit "thinking") thinking start_thinking
      refl refl refl refl (omega arith) refl
