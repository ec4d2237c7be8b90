-- ===== src/Providers/OpenAi/Accumulator/Deltas.antt =====
-- What is assembled of a stream, read off its chunks.
use mathlib.Core.List.{foldl, flatten, append_assoc, append-nil}
use sekisho.Base.{
  ℕ, List, [], ◌∷◌, ◌++◌, map, Option, none, some, Option-cases, inl, inr, ◌≡◌, refl, sym, and_then,
  unwrap_or, first, is_empty, same, ok, err, Bool, true, Result-cases, Bool-cases, if◌then◌else◌,
}
use sekisho.Text.{Str, lit, trim, strip_prefix}
use sekisho.Json.{Value, get, get_str, get_array}
use sekisho.Canonical.{text}
use sekisho.External.{External}
use sekisho.Providers.OpenAi.{Decoders}
use sekisho.Providers.OpenAi.Accumulator.{
  AccToolCall, Accumulated, updated, handle_data, handle_line, new, apply_tool_calls, apply_delta,
  apply_choice, apply_chunk, call_block, finish,
}
use sekisho.Providers.OpenAi.Accumulator.Order.{
  IsAbove, call_at, extended, pushed_lem, apply_tool_calls-IsAbove, call_at-apply_tool_calls,
}

-- The first choice of a chunk and its delta, and what they say.
abbrev pub chunk_choice : Value → Option Value
chunk_choice chunk = and_then (get_array (lit "choices") chunk) first

abbrev pub chunk_delta : Value → Option Value
chunk_delta chunk = and_then (chunk_choice chunk) (get (lit "delta"))

abbrev pub chunk_text : Value → Str
chunk_text chunk = unwrap_or [] (and_then (chunk_delta chunk) (get_str (lit "content")))

abbrev pub chunk_calls : Value → List Value
chunk_calls chunk = unwrap_or [] (and_then (chunk_delta chunk) (get_array (lit "tool_calls")))

abbrev pub chunk_end : Value → Option Str
chunk_end chunk = and_then (chunk_choice chunk) (get_str (lit "finish_reason"))

-- The last of what chunks say, or what was known before.
abbrev pub latest : (Value → Option Str) → Option Str → List Value → Option Str
latest said known [] = known
latest said known (chunk ∷ chunks) = latest said (updated known (said chunk)) chunks

-- What a choice says of its delta.
abbrev delta_text : Option Value → Str
delta_text delta = unwrap_or [] (and_then delta (get_str (lit "content")))

abbrev delta_calls : Option Value → List Value
delta_calls delta = unwrap_or [] (and_then delta (get_array (lit "tool_calls")))

apply_choice_fields :
    (choice : Value) (acc : Accumulated)
    → ((apply_choice choice acc).text ≡ acc.text ++ delta_text (get (lit "delta") choice))
      × ((apply_choice choice acc).tool_calls
          ≡ apply_tool_calls (delta_calls (get (lit "delta") choice)) acc.tool_calls)
      × ((apply_choice choice acc).finish_reason
          ≡ updated acc.finish_reason (get_str (lit "finish_reason") choice))
      × ((apply_choice choice acc).model ≡ acc.model)
      × ((apply_choice choice acc).id ≡ acc.id)
unfolding apply_choice apply_delta apply_tool_calls
apply_choice_fields choice acc = elim (Option-cases (get (lit "delta") choice)) [
  | inl n ↦ rw (apply_choice, n) (sym (append-nil acc.text), refl, refl, refl, refl)
  | inr (delta, e) ↦
      rw (apply_choice, e)
        (pushed_lem acc.text (get_str (lit "content") delta), refl, refl, refl, refl)
]

module _ (x : External) (d : Decoders) where
  apply_chunk_fields :
      (acc : Accumulated) (chunk : Value)
      → ((apply_chunk x d acc chunk).text ≡ acc.text ++ chunk_text chunk)
        × ((apply_chunk x d acc chunk).tool_calls
            ≡ apply_tool_calls (chunk_calls chunk) acc.tool_calls)
        × ((apply_chunk x d acc chunk).finish_reason ≡ updated acc.finish_reason (chunk_end chunk))
        × ((apply_chunk x d acc chunk).model ≡ updated acc.model (get_str (lit "model") chunk))
        × ((apply_chunk x d acc chunk).id ≡ updated acc.id (get_str (lit "id") chunk))
  unfolding apply_chunk apply_tool_calls
  apply_chunk_fields acc chunk = elim (Option-cases (chunk_choice chunk)) [
    | inl n ↦ rw (apply_chunk, n) (sym (append-nil acc.text), refl, refl, refl, refl)
    | inr (choice, c) ↦ rw (apply_chunk, c) (apply_choice_fields choice _)
  ]

  -- The chunk that a line holds, if it holds one.
  abbrev pub line_chunk : Str → List Value
  line_chunk line = elim (strip_prefix line (lit "data:")) [
    | none ↦ []
    | some content ↦
        if is_empty (trim content)
        then []
        else if same (trim content) (lit "[DONE]")
        then []
        else elim (x.from_str (trim content)) [ ok value ↦ value ∷ [] | err _ ↦ [] ]
  ]

  -- What chunks do to what is assembled, read off all of them at once.
  pub record Adds (acc next : Accumulated) (chunks : List Value) : Type 0 where
    pub text : next.text ≡ acc.text ++ flatten (map chunk_text chunks)
    pub tool_calls :
        next.tool_calls ≡ apply_tool_calls (flatten (map chunk_calls chunks)) acc.tool_calls
    pub finish_reason : next.finish_reason ≡ latest chunk_end acc.finish_reason chunks
    pub model : next.model ≡ latest (get_str (lit "model")) acc.model chunks
    pub id : next.id ≡ latest (get_str (lit "id")) acc.id chunks

  apply_tool_calls-append :
      (more less : List Value) (calls : List (ℕ × AccToolCall))
      → apply_tool_calls (more ++ less) calls ≡ apply_tool_calls less (apply_tool_calls more calls)
  unfolding apply_tool_calls
  apply_tool_calls-append [] less calls = refl
  apply_tool_calls-append (call ∷ more) less calls = apply_tool_calls-append more less _

  apply_chunk-Adds :
      (acc : Accumulated) (chunk : Value) → Adds acc (apply_chunk x d acc chunk) (chunk ∷ [])
  unfolding apply_tool_calls apply_chunk flatten
  apply_chunk-Adds acc chunk =
      let (t, c, f, m, i) = apply_chunk_fields acc chunk in
      record {
        text = rw append-nil t;
        tool_calls = rw append-nil c;
        finish_reason = f;
        model = m;
        id = i;
      }

  same-Adds : (acc : Accumulated) (done : Bool) → Adds acc (record acc { done = done }) []
  unfolding apply_tool_calls flatten
  same-Adds acc done = record {
    text = sym (append-nil acc.text);
    tool_calls = refl;
    finish_reason = refl;
    model = refl;
    id = refl;
  }

  handle_line-Adds :
      (acc : Accumulated) (line : Str) → Adds acc (handle_line x d acc line) (line_chunk line)
  unfolding handle_line handle_data strip_prefix
  handle_line-Adds acc line = elim (Option-cases (strip_prefix line (lit "data:"))) [
    | inl n ↦ rw (handle_line, n) (same-Adds acc acc.done)
    | inr (content, e) ↦ elim (Bool-cases (is_empty (trim content))) [
      | inl b ↦ rw (handle_line, e, handle_data, b) (same-Adds acc acc.done)
      | inr b ↦ elim (Bool-cases (same (trim content) (lit "[DONE]"))) [
        | inl q ↦ rw (handle_line, e, handle_data, b, q) (same-Adds acc true)
        | inr q ↦ elim (Result-cases (x.from_str (trim content))) [
          | inl (value, r) ↦ rw (handle_line, e, handle_data, b, q, r) (apply_chunk-Adds acc value)
          | inr (error, r) ↦ rw (handle_line, e, handle_data, b, q, r) (same-Adds acc acc.done)
        ]
      ]
    ]
  ]

  latest-append :
      (said : Value → Option Str) (known : Option Str) (more less : List Value)
      → latest said known (more ++ less) ≡ latest said (latest said known more) less
  latest-append said known [] less = refl
  latest-append said known (chunk ∷ more) less = latest-append said _ more less

  flatten-map-append :
      {A : Type 0} (f : Value → List A) (more less : List Value)
      → flatten (map f (more ++ less)) ≡ flatten (map f more) ++ flatten (map f less)
  unfolding flatten
  flatten-map-append f [] less = refl
  flatten-map-append f (chunk ∷ more) less = rw (flatten-map-append f more less, append_assoc) refl

  Adds-append :
      (acc mid next : Accumulated) (more less : List Value)
      → Adds acc mid more
      → Adds mid next less
      → Adds acc next (more ++ less)
  unfolding apply_tool_calls flatten
  Adds-append acc mid next more less a b = record {
    text = rw (flatten-map-append chunk_text more less, b.text, a.text, append_assoc) refl;
    tool_calls =
        rw
          (
            flatten-map-append chunk_calls more less,
            b.tool_calls,
            a.tool_calls,
            apply_tool_calls-append,
          )
          refl;
    finish_reason = rw (b.finish_reason, a.finish_reason, latest-append) refl;
    model = rw (b.model, a.model, latest-append) refl;
    id = rw (b.id, a.id, latest-append) refl;
  }

  -- The lines of a stream, one after another, and the chunks that they hold.
  abbrev pub handle_lines : List Str → Accumulated
  handle_lines lines = foldl (handle_line x d) new.accumulated lines

  abbrev pub chunks_of : List Str → List Value
  chunks_of lines = flatten (map line_chunk lines)

  foldl-Adds :
      (acc : Accumulated) (lines : List Str)
      → Adds acc (foldl (handle_line x d) acc lines) (chunks_of lines)
  unfolding flatten handle_line apply_tool_calls
  foldl-Adds acc [] = same-Adds acc acc.done
  foldl-Adds acc (line ∷ lines) =
      Adds-append acc (handle_line x d acc line) _ (line_chunk line) (chunks_of lines)
        (handle_line-Adds acc line) (foldl-Adds (handle_line x d acc line) lines)

  -- The response made of a stream has the last model and the last finish reason of its chunks, the
  -- request id is their last id, and the content is the joined texts of the deltas, if there are any,
  -- then the tool calls of all deltas in the order of their indices; lines without a chunk add nothing.
  -- The sentinel line at the end of a stream ends nothing: chunks behind it count like those before it.
  pub finish-handle_lines :
      (lines : List Str) (fallback_model : Str)
      → let chunks = chunks_of lines in
        let joined = flatten (map chunk_text chunks) in
        let (response, meta, request_id) = finish x d (handle_lines lines) fallback_model in
        (response.model ≡ unwrap_or fallback_model (latest (get_str (lit "model")) none chunks))
        × (response.content
            ≡ (if is_empty joined then [] else text joined ∷ [])
              ++ map (call_block x d) (apply_tool_calls (flatten (map chunk_calls chunks)) []))
        × (response.stop_reason ≡ unwrap_or [] (latest chunk_end none chunks))
        × (request_id ≡ unwrap_or [] (latest (get_str (lit "id")) none chunks))
  unfolding finish
  finish-handle_lines lines fallback_model =
      let a = foldl-Adds new.accumulated lines in
      (rw a.model refl, rw (a.text, a.tool_calls) refl, rw a.finish_reason refl, rw a.id refl)

  -- Whatever lines a stream has, its tool calls stand in the order of their indices, one for each
  -- index, and the call at an index is there exactly if a delta names that index: it has the last id
  -- that the index is given, and the joined names and arguments of that index. Deltas behind the
  -- sentinel line at the end of a stream count like those before it.
  pub tool_calls-IsAbove :
      (k : ℕ) (lines : List Str)
      → IsAbove 0 (handle_lines lines).tool_calls
        × (call_at k (handle_lines lines).tool_calls
            ≡ extended k (flatten (map chunk_calls (chunks_of lines))) none)
  unfolding apply_tool_calls flatten
  tool_calls-IsAbove k lines =
      let a = foldl-Adds new.accumulated lines in
      let deltas = flatten (map chunk_calls (chunks_of lines)) in
      rw a.tool_calls
        (apply_tool_calls-IsAbove deltas [] tt, call_at-apply_tool_calls k deltas [] tt)
