-- ===== src/Providers/Anthropic/Accumulator/Events.antt =====
-- The blocks of a streamed response, read off the lines of its stream.
use sekisho.Base.{
  ℕ, ◌+◌, ◌<◌, ◌≤◌, ◌^◌, List, [], ◌∷◌, ◌++◌, Option, none, some, ◌≡◌, refl, sym, if◌then◌else◌,
  All, All-append, Bool-cases, ok, err, Result-cases, Option-cases, is_empty, inl, inr,
}
use sekisho.Text.{Str, lit, trim, strip_prefix}
use sekisho.Json.{Value}
use sekisho.External.{External}
use sekisho.Providers.Anthropic.Accumulator.{
  AccBlock, Accumulated, index_of, handle_data, handle_line, handle_lines,
}
use sekisho.Providers.Anthropic.Accumulator.Blocks.{block_at, block_after, apply_event_total}

module _ (x : External) where
  -- The event that a line holds, if it holds one.
  abbrev pub line_event : Str → List Value
  line_event line = elim (strip_prefix line (lit "data:")) [
    | none ↦ []
    | some content ↦
        if is_empty (trim content)
        then []
        else elim (x.from_str (trim content)) [ ok value ↦ value ∷ [] | err _ ↦ [] ]
  ]

  abbrev pub events_of : List Str → List Value
  events_of [] = []
  events_of (line ∷ lines) = line_event line ++ events_of lines

  -- What events do to the block at an index, where the process goes on.
  abbrev Sets : ℕ → Accumulated → Option Accumulated → List Value → Type 0
  Sets k acc result events =
      (next : Accumulated) × (result ≡ some next)
      × (block_at k next.blocks ≡ block_after k events (block_at k acc.blocks))

  handle_line-Sets :
      (k : ℕ) (acc : Accumulated) (line : Str)
      → x.max_blocks < 2 ^ 64
      → All (λ event. index_of event + 1 ≤ x.max_blocks) (line_event line)
      → Sets k acc (handle_line x acc line) (line_event line)
  unfolding handle_line handle_data strip_prefix
  handle_line-Sets k acc line m = elim (Option-cases (strip_prefix line (lit "data:"))) [
    | inl n ↦ rw (handle_line, n) (λ h. (acc, refl, refl))
    | inr (content, e) ↦ elim (Bool-cases (is_empty (trim content))) [
      | inl b ↦ rw (handle_line, e, handle_data, b) (λ h. (acc, refl, refl))
      | inr b ↦ elim (Result-cases (x.from_str (trim content))) [
        | inl (value, r) ↦
            rw (handle_line, e, handle_data, b, r)
              (λ h. apply_event_total k x.max_blocks acc value m h.0)
        | inr (error, r) ↦ rw (handle_line, e, handle_data, b, r) (λ h. (acc, refl, refl))
      ]
    ]
  ]

  block_after-append :
      (k : ℕ) (more less : List Value) (block : Option AccBlock)
      → block_after k (more ++ less) block ≡ block_after k less (block_after k more block)
  block_after-append k [] less block = refl
  block_after-append k (event ∷ more) less block = block_after-append k more less _

  -- Whatever lines a stream has, the enclave goes on if the vector of blocks can grow to every event's
  -- index and its length is one of 64 bits; and then the block at an index is what the events at
  -- that index make of it: the last start, and the deltas behind it, in their order.
  pub block_at-handle_lines :
      (k : ℕ) (acc : Accumulated) (lines : List Str)
      → x.max_blocks < 2 ^ 64
      → All (λ event. index_of event + 1 ≤ x.max_blocks) (events_of lines)
      → (next : Accumulated) × (handle_lines x (some acc) lines ≡ some next)
        × (block_at k next.blocks ≡ block_after k (events_of lines) (block_at k acc.blocks))
  unfolding handle_lines
  block_at-handle_lines k acc [] m h = (acc, refl, refl)
  block_at-handle_lines k acc (line ∷ lines) m h =
      let (h_line, h_lines) = All-append _ (line_event line) (events_of lines) h in
      let (mid, e, l) = handle_line-Sets k acc line m h_line in
      let (next, e_next, l_next) = block_at-handle_lines k mid lines m h_lines in
      (
        next,
        rw (handle_lines, e) e_next,
        rw (block_after-append k (line_event line) (events_of lines), sym l) l_next,
      )
