-- ===== src/Canonical/Serialize/Responses.antt =====
-- The canonical JSON of a response and of a provider's metadata determines them.
use sekisho.Base.{Option, some, ◌≡◌, refl, ap, and_then, map_option, Option-cases, inl, inr, arith}
use sekisho.Text.{lit}
use sekisho.Json.{Value, get, get_u64}
use sekisho.Canonical.{CanonicalUsage, CanonicalResponse, ProviderMeta}
use sekisho.Canonical.Serialize.{block_value, usage_value, response_value, meta_value}
use sekisho.Canonical.Serialize.Readers.{
  read_array, read_array-map, str, read_block, read_block-block_value,
}

read_usage : Value → Option CanonicalUsage
read_usage v = and_then (get_u64 (lit "input_tokens") v) (λ input_tokens.
    and_then (get_u64 (lit "cache_creation_tokens") v) (λ cache_creation_tokens.
      and_then (get_u64 (lit "cache_read_tokens") v) (λ cache_read_tokens.
        map_option
          (λ output_tokens. record {
            input_tokens = input_tokens;
            cache_creation_tokens = cache_creation_tokens;
            cache_read_tokens = cache_read_tokens;
            output_tokens = output_tokens;
          })
          (get_u64 (lit "output_tokens") v))))

read_response : Value → Option CanonicalResponse
unfolding read_usage
read_response v = and_then (str "model" v) (λ model.
    and_then (and_then (get (lit "content") v) (read_array read_block)) (λ content.
      and_then (str "stop_reason" v) (λ stop_reason.
        map_option
          (λ usage. record {
            model = model;
            content = content;
            stop_reason = stop_reason;
            usage = usage;
          })
          (and_then (get (lit "usage") v) read_usage))))

read_response-response_value : (r : CanonicalResponse) → read_response (response_value r) ≡ some r
unfolding read_response read_usage response_value usage_value
read_response-response_value r =
    rw (read_array-map read_block block_value read_block-block_value r.content) refl

read_meta : Value → Option ProviderMeta
read_meta v =
    map_option
      (λ stop_reason. record {
        stop_reason = stop_reason;
        service_tier = str "service_tier" v;
        inference_geo = str "inference_geo" v;
      })
      (str "stop_reason" v)

read_meta-meta_value : (m : ProviderMeta) → read_meta (meta_value m) ≡ some m
unfolding read_meta meta_value
read_meta-meta_value m = elim (Option-cases m.service_tier) [
  | inl t ↦ elim (Option-cases m.inference_geo) [
    | inl g ↦ ground (arith, t, g)
    | inr (geo, g) ↦ ground (arith, t, g)
  ]
  | inr (tier, t) ↦ elim (Option-cases m.inference_geo) [
    | inl g ↦ ground (arith, t, g)
    | inr (geo, g) ↦ ground (arith, t, g)
  ]
]

-- Two responses with the same canonical JSON are the same response, block by block and counter by
-- counter, and two records of metadata with the same canonical JSON are the same.
pub response_value-injective :
    (r s : CanonicalResponse) (m n : ProviderMeta)
    → response_value r ≡ response_value s
    → meta_value m ≡ meta_value n
    → (r ≡ s) × (m ≡ n)
response_value-injective r s m n e f = (
  cc (read_response-response_value r, ap read_response e, read_response-response_value s),
  cc (read_meta-meta_value m, ap read_meta f, read_meta-meta_value n),
)
