-- ===== src/Providers/OpenAi/Usage.antt =====
-- `WireUsage::to_canonical_usage`: the four counters.
use sekisho.Base.{ℕ, ◌+◌, ◌≤◌, ◌≡◌, arith, unwrap_or, map_option}
use sekisho.Providers.OpenAi.{WireUsage, to_canonical_usage}

abbrev pub cached : WireUsage → ℕ
cached u = unwrap_or 0 (map_option (λ details. details.cached_tokens) u.prompt_tokens_details)

-- The counters add up to the prompt and completion tokens that the provider reports, cached prompt
-- tokens counted once and none as cache writes, if no more prompt tokens are cached than there are.
pub usage_total :
    (u : WireUsage)
    → cached u ≤ u.prompt_tokens
    → ((to_canonical_usage u).input_tokens
          + (to_canonical_usage u).cache_creation_tokens
          + (to_canonical_usage u).cache_read_tokens
          + (to_canonical_usage u).output_tokens
        ≡ u.prompt_tokens + u.completion_tokens)
      × ((to_canonical_usage u).cache_creation_tokens ≡ 0)
      × ((to_canonical_usage u).cache_read_tokens ≡ cached u)
unfolding to_canonical_usage
usage_total u h = ground arith
