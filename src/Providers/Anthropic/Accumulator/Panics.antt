-- ===== src/Providers/Anthropic/Accumulator/Panics.antt =====
-- When an event of a stream ends the process.
use sekisho.Base.{
  ◌<◌, ◌≤◌, ◌^◌, ◌||◌, Bool, true, false, List, [], ◌∷◌, none, some, ◌≡◌, ◌↔◌, refl, sym, length,
  arith, any, any-append, All, All-append, Bool-cases, Option-cases, Result-cases, is_empty, inl,
  inr,
}
use mathlib.Core.Path.{subst}
use sekisho.Text.{Str, lit, trim, strip_prefix}
use sekisho.External.{External}
use sekisho.Providers.Anthropic.Accumulator.{
  Accumulated, empty, index_of, apply_event, handle_data, handle_line, handle_lines,
}
use sekisho.Providers.Anthropic.Accumulator.Events.{line_event, events_of}
use sekisho.Providers.Anthropic.Accumulator.Growth.{Ends, ends_process, apply_event-Ends}

module _ (x : External) where
  -- A line of a stream, which holds one event at most.
  handle_line-Ends :
      (acc : Accumulated) (line : Str)
      → x.max_blocks < 2 ^ 64
      → length acc.blocks ≤ x.max_blocks
      → All (λ event. index_of event < 2 ^ 64) (line_event x line)
      → Ends x.max_blocks
          (any (ends_process x.max_blocks) (line_event x line))
          (handle_line x acc line)
  unfolding handle_line handle_data strip_prefix
  handle_line-Ends acc line m h = elim (Option-cases (strip_prefix line (lit "data:"))) [
    | inl n ↦ rw (handle_line, n) (λ _. inr (refl, acc, refl, h))
    | inr (content, e) ↦ elim (Bool-cases (is_empty (trim content))) [
      | inl b ↦ rw (handle_line, e, handle_data, b) (λ _. inr (refl, acc, refl, h))
      | inr b ↦ elim (Result-cases (x.from_str (trim content))) [
        | inl (value, r) ↦
            rw (handle_line, e, handle_data, b, r)
              (λ i.
                subst (λ p. Ends x.max_blocks p (apply_event x.max_blocks acc value))
                  (sym (or_false (ends_process x.max_blocks value)))
                  (apply_event-Ends x.max_blocks acc value m h i.0))
        | inr (error, r) ↦ rw (handle_line, e, handle_data, b, r) (λ _. inr (refl, acc, refl, h))
      ]
    ]
  ]
    where
      or_false : (b : Bool) → (b || false) ≡ b
      or_false b = ground arith

  handle_lines_of_none : (lines : List Str) → handle_lines x none lines ≡ none
  unfolding handle_lines
  handle_lines_of_none [] = refl
  handle_lines_of_none (line ∷ lines) = handle_lines_of_none lines

  handle_lines-Ends :
      (acc : Accumulated) (lines : List Str)
      → x.max_blocks < 2 ^ 64
      → length acc.blocks ≤ x.max_blocks
      → All (λ event. index_of event < 2 ^ 64) (events_of x lines)
      → Ends x.max_blocks
          (any (ends_process x.max_blocks) (events_of x lines))
          (handle_lines x (some acc) lines)
  unfolding handle_lines
  handle_lines-Ends acc [] m h i = inr (refl, acc, refl, h)
  handle_lines-Ends acc (line ∷ lines) m h i =
      let (i_line, i_lines) = All-append _ (line_event x line) (events_of x lines) i in
      let split = any-append (ends_process x.max_blocks) (line_event x line) (events_of x lines) in
      elim (handle_line-Ends acc line m h i_line) [
        | inl (p, e) ↦ inl (rw (split, p) refl, rw (handle_lines, e) (handle_lines_of_none lines))
        | inr (p, mid, e, l) ↦
            rw (split, p, handle_lines, e) (handle_lines-Ends mid lines m l i_lines)
      ]

  -- A stream whose lines are handled from a new accumulator ends the process exactly if one of its
  -- events starts a block above what the vector of blocks can grow to, or is a delta there, other than
  -- at the last index of 64 bits. The hypotheses are that indices are of 64 bits, and that so is the
  -- length that the vector can grow to.
  pub handle_lines-none :
      (lines : List Str)
      → x.max_blocks < 2 ^ 64
      → All (λ event. index_of event < 2 ^ 64) (events_of x lines)
      → (handle_lines x (some empty) lines ≡ none)
        ↔ (any (ends_process x.max_blocks) (events_of x lines) ≡ true)
  handle_lines-none lines m h = elim (handle_lines-Ends empty lines m (omega arith) h) [
    | inl (p, e) ↦ (λ _. p, λ _. e)
    | inr (p, next, e, l) ↦ (λ n. absurd (cc (n, e)), λ t. absurd (cc (t, p)))
  ]
