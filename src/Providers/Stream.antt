-- ===== src/Providers/Stream.antt =====
-- The loop of both `feed` methods: pieces are split off the front of a buffer as long as there is
-- one, and handed on.
pub mod Chunks
use sekisho.Base.{
  ℕ, zero, suc, ◌+◌, List, [], ◌∷◌, ◌++◌, Option, none, some, length, ◌==◌, ◌&&◌, if◌then◌else◌,
  is_empty,
}
use sekisho.Text.{Str}

-- `find('\n')` and `drain(..=pos)`.
unfoldable pub split_line : Str → Option (Str × Str)
split_line [] = none
split_line (c ∷ s) =
    let rest = split_line s in
    if c == b'\n'
    then some (c ∷ [], s)
    else elim rest [ none ↦ none | some (line, behind) ↦ some (c ∷ line, behind) ]

-- `find("\n\n")` and `drain(..=pos + 1)`.
unfoldable pub split_event : Str → Option (Str × Str)
split_event [] = none
split_event (c ∷ []) = none
split_event (c ∷ d ∷ s) =
    let rest = split_event (d ∷ s) in
    if c == b'\n' && d == b'\n'
    then some (c ∷ d ∷ [], s)
    else elim rest [ none ↦ none | some (event, behind) ↦ some (c ∷ event, behind) ]

-- `str::lines` from the line read so far: a line feed ends a line, with the carriage return before
-- it if there is one.
abbrev without_return : Str → Str
without_return [] = []
without_return (c ∷ []) = if c == b'\r' then [] else c ∷ []
without_return (c ∷ d ∷ s) = c ∷ without_return (d ∷ s)

unfoldable pub lines_from : Str → Str → List Str
lines_from line [] = if is_empty line then [] else line ∷ []
lines_from line (c ∷ s) =
    let ended = without_return line ∷ lines_from [] s in
    let going_on = lines_from (line ++ c ∷ []) s in if c == b'\n' then ended else going_on

unfoldable pub lines : Str → List Str
unfolding lines_from
lines = lines_from []

module _ {S : Type 0} (split : Str → Option (Str × Str)) (handle : S → Str → S) where
  -- The `while let` loop on fuel, over the accumulator and its buffer.
  unfoldable pub drain_loop : ℕ → S → Str → S × Str
  drain_loop zero state buffer = (state, buffer)
  drain_loop (suc fuel) state buffer = elim (split buffer) [
    | none ↦ (state, buffer)
    | some (piece, rest) ↦ drain_loop fuel (handle state piece) rest
  ]

  -- A piece is never empty, so the buffer's length is enough fuel.
  unfoldable pub drain : S → Str → S × Str
  unfolding drain_loop
  drain state buffer = drain_loop (length buffer) state buffer
