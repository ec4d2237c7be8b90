-- ===== src/Providers/Anthropic/Accumulator/Opaque.antt =====
-- What a stream leaves out: the deltas of blocks that the adapter does not model.
use mathlib.Core.List.{append-nil}
use sekisho.Base.{
  ℕ, zero, suc, ◌+◌, ◌-◌, ◌<◌, ◌≤◌, leb, true, ◌^◌, List, [], ◌∷◌, ◌++◌, Option, some, ◌≡◌, refl,
  ap, unwrap_or, and_then, is_empty, ok, false, length, arith,
}
use sekisho.Text.{Str, lit, strip_prefix, trim}
use sekisho.External.{External}
use sekisho.Json.{Value, null, get}
use sekisho.Providers.Anthropic.{text_at}
use sekisho.Providers.Anthropic.Accumulator.{
  AccBlock, acc_opaque, Accumulated, apply_delta, amend, ensure_len, next_index, index_of,
  content_block_delta, apply_event, handle_data, handle_line, handle_lines,
}
use sekisho.Providers.Anthropic.Accumulator.Blocks.{block_at}

length-block_at :
    (k : ℕ) (blocks : List (Option AccBlock)) (b : AccBlock)
    → block_at k blocks ≡ some b
    → k < length blocks
length-block_at k [] b h = absurd (cc h)
length-block_at zero (block ∷ blocks) b h = omega arith
length-block_at (suc k) (block ∷ blocks) b h = omega (arith, length-block_at k blocks b h)

-- A vector that is long enough stays.
ensure_len_same :
    (max : ℕ) (blocks : List (Option AccBlock)) (len : ℕ)
    → len ≤ length blocks
    → ensure_len max blocks len ≡ some blocks
unfolding ensure_len
ensure_len_same max blocks len h =
    let enough : leb len (length blocks) ≡ true = ground (arith, h) in
    let nothing : len - length blocks ≡ 0 = omega (arith, h) in
    rw (ensure_len, enough, nothing, append-nil blocks) refl

amend_same :
    (k : ℕ) (delta : Value) (blocks : List (Option AccBlock)) (kind : Str) (raw : Value)
    → block_at k blocks ≡ some (acc_opaque kind raw)
    → amend blocks k delta ≡ blocks
unfolding amend apply_delta
amend_same k delta [] kind raw h = absurd (cc h)
amend_same zero delta (block ∷ blocks) kind raw h = rw h refl
amend_same (suc k) delta (block ∷ blocks) kind raw h =
    ap (λ rest. block ∷ rest) (amend_same k delta blocks kind raw h)

apply_event_opaque :
    (max : ℕ) (acc : Accumulated) (event : Value) (kind : Str) (raw : Value)
    → index_of event + 1 < 2 ^ 64
    → text_at (lit "type") event ≡ lit "content_block_delta"
    → block_at (index_of event) acc.blocks ≡ some (acc_opaque kind raw)
    → apply_event max acc event ≡ some acc
unfolding apply_event content_block_delta
apply_event_opaque max acc event kind raw l e h =
    let delta = unwrap_or null (get (lit "delta") event) in
    let kept =
      ensure_len_same max acc.blocks (next_index (index_of event))
        (omega (arith, l, length-block_at (index_of event) acc.blocks (acc_opaque kind raw) h)) in
    rw (apply_event, e, content_block_delta, kept)
      (ap (λ blocks. some (record acc { blocks = blocks }))
        (amend_same (index_of event) delta acc.blocks kind raw h))

module _ (x : External) where
  handle_lines-append :
      (start : Option Accumulated) (before after : List Str)
      → handle_lines x start (before ++ after) ≡ handle_lines x (handle_lines x start before) after
  unfolding handle_lines
  handle_lines-append start [] after = refl
  handle_lines-append start (line ∷ before) after =
      handle_lines-append (and_then start (λ acc. handle_line x acc line)) before after

  -- A line of a stream with a delta of a block of an unknown kind, such as a piece of a thought, leaves
  -- no trace: the stream is assembled to what it would be without the line, whatever comes before it
  -- and after it.
  pub handle_lines_opaque :
      (start : Option Accumulated) (before after : List Str) (line content : Str) (event : Value)
      (acc : Accumulated) (kind : Str) (raw : Value)
      → handle_lines x start before ≡ some acc
      → strip_prefix line (lit "data:") ≡ some content
      → is_empty (trim content) ≡ false
      → x.from_str (trim content) ≡ ok event
      → text_at (lit "type") event ≡ lit "content_block_delta"
      → index_of event + 1 < 2 ^ 64
      → block_at (index_of event) acc.blocks ≡ some (acc_opaque kind raw)
      → handle_lines x start (before ++ line ∷ after) ≡ handle_lines x start (before ++ after)
  unfolding handle_lines handle_line handle_data
  handle_lines_opaque start before after line content event acc kind raw h c n j e l b =
      rw
        (
          handle_lines-append start before (line ∷ after),
          handle_lines-append start before after,
          h,
          handle_line,
          c,
          handle_data,
          n,
          j,
        )
        (ap (λ a. handle_lines x a after)
          (apply_event_opaque x.max_blocks acc event kind raw l e b))
