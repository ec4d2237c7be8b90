-- ===== src/Providers/OpenAi/Accumulator/Order.antt =====
-- The tool calls of a streamed response: one for each index, in the order of the indices.
use Prim.Native.String.{String}
use mathlib.Core.List.{append_assoc, append-nil}
use sekisho.Base.{
  suc, ◌++◌, any, sym, ap, ◌∙◌, ℕ, ◌<◌, ◌≤◌, List, [], ◌∷◌, Option, none, some, ◌≡◌, refl,
  if◌then◌else◌, ◌==◌, unwrap_or, arith, Bool-cases, true, inl, inr,
}
use sekisho.Text.{Str, lit}
use sekisho.Json.{Value, get_u64, get_str}
use sekisho.Providers.OpenAi.Accumulator.{
  AccToolCall, pushed, no_call, function_field, entry, extend_call, apply_tool_calls,
}

-- The entries of a `BTreeMap`: all above a bound, and each above the one before it.
abbrev pub IsAbove : ℕ → List (ℕ × AccToolCall) → Type 0
IsAbove bound [] = Unit
IsAbove bound ((i, call) ∷ calls) = (bound ≤ i) × IsAbove (suc i) calls

-- The call at an index.
abbrev pub call_at : ℕ → List (ℕ × AccToolCall) → Option AccToolCall
call_at index [] = none
call_at index ((i, call) ∷ calls) =
    let rest = call_at index calls in if index == i then some call else rest

call_at_below :
    (index bound : ℕ) (calls : List (ℕ × AccToolCall))
    → index < bound
    → IsAbove bound calls
    → call_at index calls ≡ none
call_at_below index bound [] l h = refl
call_at_below index bound ((i, call) ∷ calls) l (hi, hs) =
    ground (arith, call_at_below index (suc i) calls)

entry-IsAbove :
    (bound index : ℕ) (f : AccToolCall → AccToolCall) (calls : List (ℕ × AccToolCall))
    → bound ≤ index
    → IsAbove bound calls
    → IsAbove bound (entry index f calls)
unfolding entry
entry-IsAbove bound index f [] l h = (l, tt)
entry-IsAbove bound index f ((i, call) ∷ calls) l (hi, hs) =
    ground (arith, entry-IsAbove (suc i) index f calls)

call_at-entry :
    (bound index k : ℕ) (f : AccToolCall → AccToolCall) (calls : List (ℕ × AccToolCall))
    → IsAbove bound calls
    → call_at k (entry index f calls)
      ≡ (if k == index then some (f (unwrap_or no_call (call_at index calls))) else call_at k calls)
unfolding entry
call_at-entry bound index k f [] h = refl
call_at-entry bound index k f ((i, call) ∷ calls) (hi, hs) =
    ground (arith, call_at-entry (suc i) index k f calls, call_at_below index (suc i) calls)

-- The index of a delta, and what it adds to a field of its call.
abbrev pub index_of : Value → ℕ
index_of delta = unwrap_or 0 (get_u64 (lit "index") delta)

-- The texts that deltas add to one field of the call at an index, one after another.
abbrev pub pieces : String → ℕ → List Value → Str
pieces key k [] = []
pieces key k (delta ∷ deltas) =
    let rest = pieces key k deltas in
    if k == index_of delta then unwrap_or [] (function_field key delta) ++ rest else rest

-- The last id that deltas give to the call at an index, or the one that it has.
abbrev pub latest_id : ℕ → Str → List Value → Str
latest_id k id [] = id
latest_id k id (delta ∷ deltas) =
    latest_id k (if k == index_of delta then unwrap_or id (get_str (lit "id") delta) else id) deltas

-- The call at an index once deltas have come, if there is one or they make one.
abbrev pub extended : ℕ → List Value → Option AccToolCall → Option AccToolCall
extended k deltas none =
    if any (λ delta. k == index_of delta) deltas
    then some (record {
      id = latest_id k [] deltas;
      name = pieces "name" k deltas;
      arguments = pieces "arguments" k deltas;
    })
    else none
extended k deltas (some call) = some (record {
  id = latest_id k call.id deltas;
  name = call.name ++ pieces "name" k deltas;
  arguments = call.arguments ++ pieces "arguments" k deltas;
})

pub apply_tool_calls-IsAbove :
    (deltas : List Value) (calls : List (ℕ × AccToolCall))
    → IsAbove 0 calls
    → IsAbove 0 (apply_tool_calls deltas calls)
unfolding apply_tool_calls
apply_tool_calls-IsAbove [] calls h = h
apply_tool_calls-IsAbove (delta ∷ deltas) calls h =
    apply_tool_calls-IsAbove deltas _
      (entry-IsAbove 0 (index_of delta) (extend_call delta) calls (omega arith) h)

pub pushed_lem : (old : Str) (piece : Option Str) → pushed old piece ≡ old ++ unwrap_or [] piece
pushed_lem old none = sym (append-nil old)
pushed_lem old (some piece) = refl

extended_nil : (k : ℕ) (call : Option AccToolCall) → extended k [] call ≡ call
extended_nil k none = refl
extended_nil k (some call) = rw (append-nil call.name, append-nil call.arguments) refl

extended-some :
    (k : ℕ) (delta : Value) (deltas : List Value) (call : AccToolCall)
    → (k == index_of delta) ≡ true
    → extended k deltas (some (extend_call delta call)) ≡ extended k (delta ∷ deltas) (some call)
unfolding extend_call
extended-some k delta deltas call e =
    rw
      (
        e,
        pushed_lem call.name (function_field "name" delta),
        pushed_lem call.arguments (function_field "arguments" delta),
        append_assoc,
        append_assoc,
      )
      refl

extended_cons :
    (k : ℕ) (delta : Value) (deltas : List Value) (call : Option AccToolCall)
    → extended k deltas
        (if k == index_of delta then some (extend_call delta (unwrap_or no_call call)) else call)
      ≡ extended k (delta ∷ deltas) call
extended_cons k delta deltas none = elim (Bool-cases (k == index_of delta)) [
  | inl e ↦ rw (e, extended-some k delta deltas no_call e) (rw e refl)
  | inr e ↦ rw e refl
]
extended_cons k delta deltas (some call) = elim (Bool-cases (k == index_of delta)) [
  | inl e ↦ rw (e, extended-some k delta deltas call e) (rw e refl)
  | inr e ↦ rw e refl
]

pub call_at-apply_tool_calls :
    (k : ℕ) (deltas : List Value) (calls : List (ℕ × AccToolCall))
    → IsAbove 0 calls
    → call_at k (apply_tool_calls deltas calls) ≡ extended k deltas (call_at k calls)
unfolding apply_tool_calls
call_at-apply_tool_calls k [] calls h = sym (extended_nil k (call_at k calls))
call_at-apply_tool_calls k (delta ∷ deltas) calls h =
    call_at-apply_tool_calls k deltas _
      (entry-IsAbove 0 (index_of delta) (extend_call delta) calls (omega arith) h)
    ∙ ap (extended k deltas)
        (call_at-entry 0 (index_of delta) k (extend_call delta) calls h ∙ same_call)
    ∙ extended_cons k delta deltas (call_at k calls)
  where
    same_call :
        (if k == index_of delta
          then some (extend_call delta (unwrap_or no_call (call_at (index_of delta) calls)))
          else call_at k calls)
        ≡ (if k == index_of delta
            then some (extend_call delta (unwrap_or no_call (call_at k calls)))
            else call_at k calls)
    same_call = ground arith
