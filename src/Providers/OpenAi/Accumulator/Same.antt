-- ===== src/Providers/OpenAi/Accumulator/Same.antt =====
-- A stream and a response that says the same at once.
use sekisho.Base.{
  ℕ, List, [], ◌∷◌, map, none, some, Bool-cases, inl, inr, ok, ◌≡◌, refl, ap, if◌then◌else◌,
  is_empty, unwrap_or,
}
use sekisho.Text.{Str, lit}
use sekisho.Json.{Value, string, get_str}
use sekisho.External.{External}
use sekisho.Providers.OpenAi.{
  Decoders, WireToolCall, WireResponse, tool_call_to_block, stringify_content,
  to_canonical_response,
}
use sekisho.Providers.OpenAi.Accumulator.{AccToolCall, Accumulated, call_block, finish}

-- The message that says what was assembled: no content if there is no text, and the calls in order.
abbrev pub wire_call : ℕ × AccToolCall → WireToolCall
wire_call (_, call) = record {
  id = call.id;
  function = record { name = call.name; arguments = call.arguments };
}

abbrev pub wire_response : Accumulated → Str → WireResponse
wire_response acc fallback_model = record {
  model = unwrap_or fallback_model acc.model;
  choices =
      record {
        message = record {
          content = if is_empty acc.text then none else some (string acc.text);
          tool_calls = some (map wire_call acc.tool_calls);
        };
        finish_reason = acc.finish_reason;
      }
      ∷ [];
  usage = acc.usage;
}

module _ (x : External) (d : Decoders) where
  same_calls :
      (calls : List (ℕ × AccToolCall))
      → map (tool_call_to_block x) (map wire_call calls) ≡ map (call_block x d) calls
  unfolding tool_call_to_block
  same_calls [] = refl
  same_calls ((i, call) ∷ calls) = ap (λ rest. call_block x d (i, call) ∷ rest) (same_calls calls)

  -- A response without a stream, read as what was assembled of a stream and with its id, tier and
  -- place, has the same canonical form, the same metadata and the same request id as the stream has:
  -- so the receipts of both commit to the same blob. Where no text was assembled, the response says so
  -- by having no content, and not by an empty text.
  pub to_canonical_response-finish :
      (acc : Accumulated) (fallback_model : Str) (raw : Value)
      → d.response raw ≡ ok (wire_response acc fallback_model)
      → get_str (lit "id") raw ≡ acc.id
      → get_str (lit "service_tier") raw ≡ acc.service_tier
      → get_str (lit "inference_geo") raw ≡ acc.inference_geo
      → to_canonical_response x d raw ≡ ok (finish x d acc fallback_model)
  unfolding to_canonical_response finish stringify_content
  to_canonical_response-finish acc fallback_model raw r i t g =
      elim (Bool-cases (is_empty acc.text)) [
        | inl e ↦ rw (to_canonical_response, r, i, t, g, e, same_calls acc.tool_calls) refl
        | inr e ↦ rw (to_canonical_response, r, i, t, g, e, same_calls acc.tool_calls) refl
      ]
