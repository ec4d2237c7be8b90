-- ===== src/Providers/OpenAi/Accumulator.antt =====
-- providers/openai.rs: `StreamAccumulator`, which assembles a streamed response.
pub mod Chunking
pub mod Order
pub mod Deltas
pub mod Same
mod Tests
use Prim.Native.String.{String}
use sekisho.Base.{
  ℕ, Bool, true, false, List, [], ◌∷◌, ◌++◌, map, Option, none, some, Result, ok, err,
  if◌then◌else◌, same, and_then, unwrap_or, is_empty, first, ltb, ◌==◌,
}
use sekisho.Text.{Str, Bytes, lit, trim, strip_prefix}
use sekisho.Text.Utf8.{from_utf8_lossy}
use sekisho.Json.{Value, get, get_str, get_u64, get_array}
use sekisho.Canonical.{CanonicalBlock, text, tool_use, CanonicalResponse, ProviderMeta}
use sekisho.External.{External}
use sekisho.Providers.Stream.{split_line, drain}
use sekisho.Providers.OpenAi.{WireUsage, Decoders, arguments_input, to_canonical_usage}

pub record AccToolCall : Type 0 where
  pub id : Str
  pub name : Str
  pub arguments : Str

-- The fields of `StreamAccumulator` besides its buffer; `tool_calls` is sorted by index.
pub record Accumulated : Type 0 where
  pub model : Option Str
  pub text : Str
  pub tool_calls : List (ℕ × AccToolCall)
  pub finish_reason : Option Str
  pub usage : WireUsage
  pub done : Bool
  pub id : Option Str
  pub service_tier : Option Str
  pub inference_geo : Option Str

pub record StreamAccumulator : Type 0 where
  pub buffer : Str
  pub accumulated : Accumulated

abbrev pub no_usage : WireUsage
no_usage = record { prompt_tokens = 0; completion_tokens = 0; prompt_tokens_details = none }

abbrev pub new : StreamAccumulator
new = record {
  buffer = [];
  accumulated = record {
    model = none;
    text = [];
    tool_calls = [];
    finish_reason = none;
    usage = no_usage;
    done = false;
    id = none;
    service_tier = none;
    inference_geo = none;
  };
}

-- `if let Some(v) = …  { field = Some(v) }`.
abbrev pub updated {ℓ} : {A : Type ℓ} → Option A → Option A → Option A
updated old none = old
updated old (some v) = some v

abbrev pub pushed : Str → Option Str → Str
pushed old none = old
pushed old (some s) = old ++ s

abbrev no_call : AccToolCall
no_call = record { id = []; name = []; arguments = [] }

-- `self.tool_calls.entry(index).or_default()`, and what is then done with the entry.
pub entry : ℕ → (AccToolCall → AccToolCall) → List (ℕ × AccToolCall) → List (ℕ × AccToolCall)
entry index f [] = (index, f no_call) ∷ []
entry index f ((i, call) ∷ calls) =
    let rest = entry index f calls in
    if index == i
    then (i, f call) ∷ calls
    else if ltb index i
    then (index, f no_call) ∷ (i, call) ∷ calls
    else (i, call) ∷ rest

pub function_field : String → Value → Option Str
function_field key call = and_then (get (lit "function") call) (get_str (lit key))

-- One element of `delta.tool_calls`: the id replaces, name and arguments go on.
pub extend_call : Value → AccToolCall → AccToolCall
unfolding function_field
extend_call call acc = record {
  id = unwrap_or acc.id (get_str (lit "id") call);
  name = pushed acc.name (function_field "name" call);
  arguments = pushed acc.arguments (function_field "arguments" call);
}

pub apply_tool_calls : List Value → List (ℕ × AccToolCall) → List (ℕ × AccToolCall)
unfolding entry extend_call
apply_tool_calls [] calls = calls
apply_tool_calls (call ∷ more) calls =
    apply_tool_calls more
      (entry (unwrap_or 0 (get_u64 (lit "index") call)) (extend_call call) calls)

unfoldable pub apply_delta : Value → Accumulated → Accumulated
unfolding apply_tool_calls
apply_delta delta acc = record acc {
  text = pushed acc.text (get_str (lit "content") delta);
  tool_calls = apply_tool_calls (unwrap_or [] (get_array (lit "tool_calls") delta)) acc.tool_calls;
}

unfoldable pub apply_choice : Value → Accumulated → Accumulated
unfolding apply_delta
apply_choice choice acc =
    let reasoned = record acc {
      finish_reason = updated acc.finish_reason (get_str (lit "finish_reason") choice);
    } in
    elim (get (lit "delta") choice) [ none ↦ reasoned | some delta ↦ apply_delta delta reasoned ]

abbrev ok_or_old {ℓ} : {A E : Type ℓ} → A → Result A E → A
ok_or_old old (ok a) = a
ok_or_old old (err _) = old

module _ (x : External) (d : Decoders) where
  abbrev read_usage : WireUsage → Option Value → WireUsage
  read_usage old none = old
  read_usage old (some v) = ok_or_old old (d.usage v)

  unfoldable pub apply_chunk : Accumulated → Value → Accumulated
  unfolding apply_choice
  apply_chunk acc value =
      let named = record acc {
        model = updated acc.model (get_str (lit "model") value);
        id = updated acc.id (get_str (lit "id") value);
        service_tier = updated acc.service_tier (get_str (lit "service_tier") value);
        inference_geo = updated acc.inference_geo (get_str (lit "inference_geo") value);
        usage = read_usage acc.usage (get (lit "usage") value);
      } in
      elim (and_then (get_array (lit "choices") value) first) [
        | none ↦ named
        | some choice ↦ apply_choice choice named
      ]

  unfoldable pub handle_data : Accumulated → Str → Accumulated
  unfolding apply_chunk
  handle_data acc content =
      if is_empty content
      then acc
      else if same content (lit "[DONE]")
      then record acc { done = true }
      else elim (x.from_str content) [ ok value ↦ apply_chunk acc value | err _ ↦ acc ]

  unfoldable pub handle_line : Accumulated → Str → Accumulated
  unfolding handle_data
  handle_line acc line = elim (strip_prefix line (lit "data:")) [
    | none ↦ acc
    | some content ↦ handle_data acc (trim content)
  ]

  unfoldable pub feed : StreamAccumulator → Bytes → StreamAccumulator
  unfolding handle_line
  feed acc chunk =
      let (accumulated, buffer) =
        drain split_line (λ a line. handle_line a (trim line)) acc.accumulated
          (acc.buffer ++ from_utf8_lossy chunk) in
      record { buffer = buffer; accumulated = accumulated }

  abbrev pub call_block : ℕ × AccToolCall → CanonicalBlock
  unfolding arguments_input
  call_block (_, call) = tool_use call.id call.name (arguments_input x call.arguments)

  unfoldable pub finish : Accumulated → Str → CanonicalResponse × ProviderMeta × Str
  unfolding arguments_input to_canonical_usage
  finish acc fallback_model =
      let stop_reason = unwrap_or [] acc.finish_reason in
      (
        record {
          model = unwrap_or fallback_model acc.model;
          content =
              (if is_empty acc.text then [] else text acc.text ∷ [])
              ++ map call_block acc.tool_calls;
          stop_reason = stop_reason;
          usage = to_canonical_usage acc.usage;
        },
        record {
          stop_reason = stop_reason;
          service_tier = acc.service_tier;
          inference_geo = acc.inference_geo;
        },
        unwrap_or [] acc.id,
      )
