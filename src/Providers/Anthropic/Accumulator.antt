-- ===== src/Providers/Anthropic/Accumulator.antt =====
-- providers/anthropic.rs: `StreamAccumulator`, which assembles a streamed response.
pub mod Chunking
pub mod Blocks
pub mod Events
pub mod Growth
pub mod Panics
pub mod Same
pub mod Opaque
mod Runs
mod Tests
use sekisho.Base.{
  ℕ, zero, suc, ◌+◌, ◌-◌, ◌%◌, ◌^◌, Bool, List, [], ◌∷◌, ◌++◌, map, Option, none, some, ok, err,
  if◌then◌else◌, same, and_then, leb, ◌||◌, unwrap_or, map_option, is_empty, length, replicate,
}
use sekisho.Text.{Str, Bytes, lit, trim, strip_prefix}
use sekisho.Text.Utf8.{from_utf8_lossy}
use sekisho.Json.{Value, null, object, end, get, get_str, get_u64, pointer, pointer_str}
use sekisho.Canonical.{CanonicalBlock, text, tool_use, opaque, CanonicalResponse, ProviderMeta}
use sekisho.External.{External}
use sekisho.Providers.{opaque_descriptor}
use sekisho.Providers.Stream.{split_event, drain, lines}
use sekisho.Providers.Anthropic.{WireUsage, merge_from, to_canonical_usage, text_at}

pub data AccBlock : Type 0 where
  acc_text : Str → AccBlock
  acc_tool_use : (id name partial_json : Str) → AccBlock
  acc_opaque : (kind : Str) (raw : Value) → AccBlock

-- The fields of `StreamAccumulator` besides its buffer.
pub record Accumulated : Type 0 where
  pub model : Option Str
  pub blocks : List (Option AccBlock)
  pub stop_reason : Option Str
  pub usage : WireUsage
  pub id : Option Str
  pub service_tier : Option Str
  pub inference_geo : Option Str

-- `none` is the end of the process: an index out of bounds, or a vector that cannot grow.
pub record StreamAccumulator : Type 0 where
  pub buffer : Str
  pub accumulated : Option Accumulated

abbrev pub empty : Accumulated
empty = record {
  model = none;
  blocks = [];
  stop_reason = none;
  usage = record {
    input_tokens = 0;
    output_tokens = 0;
    cache_creation_input_tokens = 0;
    cache_read_input_tokens = 0;
  };
  id = none;
  service_tier = none;
  inference_geo = none;
}

abbrev pub new : StreamAccumulator
new = record { buffer = []; accumulated = some empty }

block_start : Str → Value → AccBlock
block_start kind block =
    if same kind (lit "text")
    then acc_text (text_at (lit "text") block)
    else if same kind (lit "tool_use")
    then acc_tool_use (text_at (lit "id") block) (text_at (lit "name") block) []
    else acc_opaque kind block

pub from_start : Value → AccBlock
unfolding block_start
from_start block = elim (get_str (lit "type") block) [
  | some kind ↦ block_start kind block
  | none ↦ acc_opaque (lit "unknown") block
]

abbrev is_delta : Str → Value → Bool
is_delta kind delta = same (text_at (lit "type") delta) kind

pub apply_delta : AccBlock → Value → AccBlock
apply_delta (acc_text t) delta =
    if is_delta (lit "text_delta") delta
    then acc_text (t ++ text_at (lit "text") delta)
    else acc_text t
apply_delta (acc_tool_use id name json) delta =
    if is_delta (lit "input_json_delta") delta
    then acc_tool_use id name (json ++ text_at (lit "partial_json") delta)
    else acc_tool_use id name json
apply_delta (acc_opaque kind raw) delta = acc_opaque kind raw

-- What the loop that pushes `None` makes in its `len - blocks.len()` rounds.
abbrev pub pushed : List (Option AccBlock) → ℕ → List (Option AccBlock)
pushed blocks len = blocks ++ replicate (len - length blocks) none

-- A `push` ends the process if the vector cannot grow: `max` is the length that it can grow to.
pub ensure_len : ℕ → List (Option AccBlock) → ℕ → Option (List (Option AccBlock))
ensure_len max blocks len =
    if leb len (length blocks) || leb len max then some (pushed blocks len) else none

-- `self.blocks[index] = Some(block)`.
pub store : List (Option AccBlock) → ℕ → AccBlock → Option (List (Option AccBlock))
store [] index block = none
store (b ∷ bs) zero block = some (some block ∷ bs)
store (b ∷ bs) (suc index) block = map_option (λ rest. b ∷ rest) (store bs index block)

-- `if let Some(Some(block)) = self.blocks.get_mut(index) { block.apply_delta(delta) }`.
pub amend : List (Option AccBlock) → ℕ → Value → List (Option AccBlock)
unfolding apply_delta
amend [] index delta = []
amend (b ∷ bs) zero delta = map_option (λ block. apply_delta block delta) b ∷ bs
amend (b ∷ bs) (suc index) delta = b ∷ amend bs index delta

-- A `usize` has 64 bits and wraps around in a release build.
abbrev pub next_index : ℕ → ℕ
next_index index = (index + 1) % 2 ^ 64

abbrev pub index_of : Value → ℕ
index_of value = unwrap_or 0 (get_u64 (lit "index") value)

abbrev updated {ℓ} : {A : Type ℓ} → Option A → Option A → Option A
updated old none = old
updated old (some v) = some v

merged : WireUsage → Option Value → WireUsage
unfolding merge_from
merged u none = u
merged u (some value) = merge_from u value

pub message_start : Accumulated → Value → Accumulated
unfolding merged
message_start acc value = record acc {
  model = updated acc.model (pointer_str (lit "message") (lit "model") value);
  id = updated acc.id (pointer_str (lit "message") (lit "id") value);
  service_tier = updated acc.service_tier (pointer_str (lit "message") (lit "service_tier") value);
  inference_geo =
      updated acc.inference_geo (pointer_str (lit "message") (lit "inference_geo") value);
  usage = merged acc.usage (pointer (lit "message") (lit "usage") value);
}

pub content_block_start : ℕ → Accumulated → Value → Option Accumulated
unfolding ensure_len store from_start
content_block_start max acc value =
    let index = index_of value in
    let block = unwrap_or null (get (lit "content_block") value) in
    and_then (ensure_len max acc.blocks (next_index index)) (λ blocks.
      map_option (λ stored. record acc { blocks = stored }) (store blocks index (from_start block)))

pub content_block_delta : ℕ → Accumulated → Value → Option Accumulated
unfolding ensure_len amend
content_block_delta max acc value =
    let index = index_of value in
    map_option
      (λ blocks. record acc {
        blocks = amend blocks index (unwrap_or null (get (lit "delta") value));
      })
      (ensure_len max acc.blocks (next_index index))

pub message_delta : Accumulated → Value → Accumulated
unfolding merged
message_delta acc value = record acc {
  stop_reason = updated acc.stop_reason (pointer_str (lit "delta") (lit "stop_reason") value);
  usage = merged acc.usage (get (lit "usage") value);
}

pub apply_event : ℕ → Accumulated → Value → Option Accumulated
unfolding message_start content_block_start content_block_delta message_delta
apply_event max acc value =
    let kind = text_at (lit "type") value in
    if same kind (lit "message_start")
    then some (message_start acc value)
    else if same kind (lit "content_block_start")
    then content_block_start max acc value
    else if same kind (lit "content_block_delta")
    then content_block_delta max acc value
    else if same kind (lit "message_delta")
    then some (message_delta acc value)
    else some acc

module _ (x : External) where
  pub handle_data : Accumulated → Str → Option Accumulated
  unfolding apply_event
  handle_data acc content = if is_empty content then some acc else elim (x.from_str content) [
    | ok value ↦ apply_event x.max_blocks acc value
    | err _ ↦ some acc
  ]

  pub handle_line : Accumulated → Str → Option Accumulated
  unfolding handle_data
  handle_line acc line = elim (strip_prefix line (lit "data:")) [
    | none ↦ some acc
    | some content ↦ handle_data acc (trim content)
  ]

  -- The `for` loop over the lines of an event.
  pub handle_lines : Option Accumulated → List Str → Option Accumulated
  unfolding handle_line
  handle_lines acc [] = acc
  handle_lines acc (line ∷ more) = handle_lines (and_then acc (λ a. handle_line a line)) more

  pub handle_event_block : Option Accumulated → Str → Option Accumulated
  unfolding handle_lines
  handle_event_block acc block = handle_lines acc (lines block)

  unfoldable pub feed : StreamAccumulator → Bytes → StreamAccumulator
  unfolding handle_event_block
  feed acc chunk =
      let (accumulated, buffer) =
        drain split_event handle_event_block acc.accumulated
          (acc.buffer ++ from_utf8_lossy chunk) in
      record { buffer = buffer; accumulated = accumulated }

  pub into_canonical : AccBlock → CanonicalBlock
  into_canonical (acc_text t) = text t
  into_canonical (acc_tool_use id name partial_json) = tool_use id name (
      if is_empty (trim partial_json)
      then object end
      else elim (x.from_str partial_json) [ ok v ↦ v | err _ ↦ null ])
  into_canonical (acc_opaque kind raw) = opaque kind (opaque_descriptor x raw)

  -- `blocks.into_iter().flatten()`.
  abbrev pub present : List (Option AccBlock) → List AccBlock
  present [] = []
  present (none ∷ bs) = present bs
  present (some b ∷ bs) = b ∷ present bs

  pub finish : Accumulated → Str → CanonicalResponse × ProviderMeta × Str
  unfolding into_canonical to_canonical_usage
  finish acc fallback_model =
      let stop_reason = unwrap_or [] acc.stop_reason in
      (
        record {
          model = unwrap_or fallback_model acc.model;
          content = map into_canonical (present acc.blocks);
          stop_reason = stop_reason;
          usage = to_canonical_usage acc.usage;
        },
        record {
          stop_reason = stop_reason;
          service_tier = acc.service_tier;
          inference_geo = acc.inference_geo;
        },
        unwrap_or [] acc.id,
      )
