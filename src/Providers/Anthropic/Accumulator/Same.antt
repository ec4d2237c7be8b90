-- ===== src/Providers/Anthropic/Accumulator/Same.antt =====
-- A stream and a response that says the same at once; and what a stream leaves out.
use sekisho.Base.{
  Bool, true, false, ◌||◌, ◌⊎◌, inl, inr, same, Option-cases, arith, List, [], ◌∷◌, map, some, ok,
  ◌≡◌, refl, ap, ◌∙◌, is_empty, unwrap_or,
}
use sekisho.Text.{Str, lit, trim}
use sekisho.Json.{Value, object, end, get, get_str}
use sekisho.Canonical.{opaque, text}
use sekisho.External.{External}
use sekisho.Providers.{opaque_descriptor}
use sekisho.Providers.Anthropic.{
  Decoders, text_at, block_of_type, block_to_canonical, to_canonical_response,
}
use sekisho.Providers.Anthropic.Accumulator.{
  AccBlock, acc_text, acc_tool_use, acc_opaque, Accumulated, present, into_canonical, finish,
}

-- The types of blocks that the adapter has a canonical block for.
abbrev pub is_modelled : Str → Bool
is_modelled kind =
    same kind (lit "text") || same kind (lit "tool_use") || same kind (lit "tool_result")

module _ (x : External) where
  -- The partial JSON of a tool's input: nothing for the empty object, or else a text of the input.
  abbrev pub Prints : Str → Value → Type 0
  Prints partial_json input =
      ((is_empty (trim partial_json) ≡ true) × (input ≡ object end))
      ⊎ ((is_empty (trim partial_json) ≡ false) × (x.from_str partial_json ≡ ok input))

  -- The value of a content block that says what was assembled of one: the same text, or the same tool
  -- and an input that the partial JSON prints, or, of a type that the adapter has no block for, the
  -- very value that the stream started the block with.
  abbrev pub Says : AccBlock → Value → Type 0
  Says (acc_text t) value =
      (get_str (lit "type") value ≡ some (lit "text")) × (text_at (lit "text") value ≡ t)
  Says (acc_tool_use id name partial_json) value =
      (get_str (lit "type") value ≡ some (lit "tool_use"))
      × (text_at (lit "id") value ≡ id)
      × (text_at (lit "name") value ≡ name)
      × (input : Value) × (get (lit "input") value ≡ some input)
      × Prints partial_json input
  Says (acc_opaque kind raw) value =
      (value ≡ raw)
      × (unwrap_or (lit "unknown") (get_str (lit "type") value) ≡ kind)
      × (is_modelled kind ≡ false)

  abbrev pub AllSay : List AccBlock → List Value → Type 0
  AllSay [] [] = Unit
  AllSay (block ∷ blocks) (value ∷ values) = Says block value × AllSay blocks values
  AllSay _ _ = ⊥

  block_of_type_opaque :
      (kind : Str) (value : Value)
      → is_modelled kind ≡ false
      → block_of_type x kind value ≡ opaque kind (opaque_descriptor x value)
  unfolding block_of_type
  block_of_type_opaque kind value m = ground (arith, m)

  block_to_canonical-Says :
      (block : AccBlock) (value : Value)
      → Says block value
      → block_to_canonical x value ≡ into_canonical x block
  unfolding block_to_canonical block_of_type into_canonical
  block_to_canonical-Says (acc_text t) value (e, l) =
      rw (block_to_canonical, e, block_of_type) (ap text l)
  block_to_canonical-Says (acc_tool_use id name partial_json) value
        (e, i, n, input, g, inl (empty, l)) =
      rw (block_to_canonical, e, block_of_type, i, n, g, into_canonical, empty, l) refl
  block_to_canonical-Says (acc_tool_use id name partial_json) value
        (e, i, n, input, g, inr (some_text, l)) =
      rw (block_to_canonical, e, block_of_type, i, n, g, into_canonical, some_text, l) refl
  block_to_canonical-Says (acc_opaque kind raw) value (e, k, m) =
      elim (Option-cases (get_str (lit "type") value)) [
        | inl n ↦
            let unknown : lit "unknown" ≡ kind = cc (k, ap (unwrap_or (lit "unknown")) n) in
            rw (block_to_canonical, n) (cc (unknown, e))
        | inr (found, n) ↦
            let same_kind : found ≡ kind = cc (k, ap (unwrap_or (lit "unknown")) n) in
            rw (block_to_canonical, n, same_kind)
              (block_of_type_opaque kind value m ∙ ap (λ v. opaque kind (opaque_descriptor x v)) e)
      ]

  map-AllSay :
      (blocks : List AccBlock) (values : List Value)
      → AllSay blocks values
      → map (block_to_canonical x) values ≡ map (into_canonical x) blocks
  unfolding into_canonical
  map-AllSay [] [] h = refl
  map-AllSay [] (value ∷ values) h = absurd h
  map-AllSay (block ∷ blocks) [] h = absurd h
  map-AllSay (block ∷ blocks) (value ∷ values) (h, hs) =
      rw (block_to_canonical-Says block value h, map-AllSay blocks values hs) refl

  -- A response without a stream whose blocks say what was assembled of a stream, and with its model, stop
  -- reason, counters, id, tier and place, has the same canonical form, the same metadata and the same
  -- request id as the stream has: so the receipts of both commit to the same blob.
  pub to_canonical_response-finish_blocks :
      (d : Decoders) (acc : Accumulated) (fallback_model : Str) (raw : Value) (values : List Value)
      → AllSay (present x acc.blocks) values
      → d.response raw
        ≡ ok (record {
          model = unwrap_or fallback_model acc.model;
          content = values;
          stop_reason = acc.stop_reason;
          usage = acc.usage;
        })
      → text_at (lit "id") raw ≡ unwrap_or [] acc.id
      → get_str (lit "service_tier") raw ≡ acc.service_tier
      → get_str (lit "inference_geo") raw ≡ acc.inference_geo
      → to_canonical_response x d raw ≡ ok (finish x acc fallback_model)
  unfolding to_canonical_response finish
  to_canonical_response-finish_blocks d acc fallback_model raw values h r i t g =
      rw (to_canonical_response, r, i, t, g, map-AllSay (present x acc.blocks) values h) refl
