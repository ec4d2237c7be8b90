-- ===== src/Policy/Tests.antt =====
-- policy.rs: the tests beside the code, on the model.
use sekisho.Base.{
  ℕ, Bool, true, false, ◌&&◌, List, [], ◌∷◌, Option, none, some, ok, err, same, ◌≡◌, refl,
}
use sekisho.Text.{
  Str, lit, strip_suffix, trim, trim_start, trim_end, keep_before, is_whitespace, starts_with,
}
use sekisho.Policy.{
  allow, deny, PolicyRule, EvaluationRequest, compile, compile_rules, compile_rule, push_rule,
  compile_matcher, compile_patterns, select_matcher,
}
use sekisho.Policy.Evaluate.{evaluate, evaluate_deny, evaluate_allow}
use sekisho.Fixtures.{external}

-- The helper of that name: a rule that allows everything.
abbrev rule : Str → PolicyRule
rule name = record {
  name = name;
  action = allow;
  enabled = true;
  caller_keys = none;
  allowed_models = none;
  max_tokens = none;
  max_request_bytes = none;
}

abbrev asked : Str → Str → Option ℕ → ℕ → EvaluationRequest
asked caller_key model max_tokens request_bytes = record {
  caller_key = caller_key;
  model = model;
  max_tokens = max_tokens;
  request_bytes = request_bytes;
}

-- The rule that lets a request through: `none` is an error of `compile`, `some none` a denial.
abbrev matched : List PolicyRule → EvaluationRequest → Option (Option Str)
unfolding compile evaluate
matched rules request = elim (compile (record { rules = rules })) [
  | err _ ↦ none
  | ok policy ↦ elim (evaluate external.debug policy request) [
    | err _ ↦ some none
    | ok name ↦ some (some name)
  ]
]

abbrev is_denied : Option (Option Str) → Bool
is_denied (some none) = true
is_denied _ = false

abbrev is_matched : Str → Option (Option Str) → Bool
is_matched name (some (some t)) = same name t
is_matched name _ = false

abbrev refuses_to_compile : Option (Option Str) → Bool
refuses_to_compile none = true
refuses_to_compile _ = false

abbrev deny_wins_regardless_of_order : Bool
deny_wins_regardless_of_order =
    let allow_all = record (rule (lit "allow-all")) { allowed_models = some (lit "*" ∷ []) } in
    let deny_bad = record (rule (lit "deny-bad-key")) {
      action = deny;
      caller_keys = some (lit "bad" ∷ []);
    } in
    is_denied (
      matched (allow_all ∷ deny_bad ∷ []) (asked (lit "bad") (lit "claude-sonnet-5") (some 100) 10))

abbrev wildcard_model_matches_prefix : Bool
wildcard_model_matches_prefix =
    let claude = record (rule (lit "allow-claude")) {
      allowed_models = some (lit "claude-*" ∷ []);
    } in
    is_matched (lit "allow-claude")
      (matched (claude ∷ []) (asked (lit "any") (lit "claude-sonnet-5") none 1))
    && is_denied (matched (claude ∷ []) (asked (lit "any") (lit "gpt-5.2") none 1))

abbrev max_tokens_cap_denies_a_request_that_omits_max_tokens : Bool
max_tokens_cap_denies_a_request_that_omits_max_tokens =
    let capped = record (rule (lit "capped")) { max_tokens = some 4096 } in
    is_denied (matched (capped ∷ []) (asked (lit "any") (lit "m") none 1))

abbrev uncapped_rule_allows_a_request_that_omits_max_tokens : Bool
uncapped_rule_allows_a_request_that_omits_max_tokens =
    is_matched (lit "uncapped")
      (matched (rule (lit "uncapped") ∷ []) (asked (lit "any") (lit "m") none 1))

abbrev max_tokens_cap_denies_when_exceeded : Bool
max_tokens_cap_denies_when_exceeded =
    let capped = record (rule (lit "capped")) { max_tokens = some 4096 } in
    is_denied (matched (capped ∷ []) (asked (lit "any") (lit "m") (some 4097) 1))
    && is_matched (lit "capped") (matched (capped ∷ []) (asked (lit "any") (lit "m") (some 4096) 1))

abbrev max_request_bytes_cap_denies_when_exceeded : Bool
max_request_bytes_cap_denies_when_exceeded =
    let capped = record (rule (lit "size-capped")) { max_request_bytes = some 1024 } in
    is_denied (matched (capped ∷ []) (asked (lit "any") (lit "m") none 2048))

abbrev soft_skip_falls_through_to_next_matching_rule : Bool
soft_skip_falls_through_to_next_matching_rule =
    let too_strict = record (rule (lit "too-strict")) {
      caller_keys = some (lit "caller" ∷ []);
      max_tokens = some 10;
    } in
    let fallback = record (rule (lit "fallback")) {
      caller_keys = some (lit "caller" ∷ []);
      max_tokens = some 10000;
    } in
    is_matched (lit "fallback")
      (matched (too_strict ∷ fallback ∷ []) (asked (lit "caller") (lit "m") (some 500) 1))

abbrev disabled_rule_is_ignored : Bool
disabled_rule_is_ignored =
    let disabled = record (rule (lit "disabled-allow-all")) { enabled = false } in
    is_denied (matched (disabled ∷ []) (asked (lit "any") (lit "m") none 1))

abbrev empty_rule_name_fails_fast_at_compile : Bool
empty_rule_name_fails_fast_at_compile =
    refuses_to_compile (matched (rule [] ∷ []) (asked (lit "any") (lit "m") none 1))

policy_tests :
    (deny_wins_regardless_of_order && wildcard_model_matches_prefix
      && max_tokens_cap_denies_a_request_that_omits_max_tokens
      && uncapped_rule_allows_a_request_that_omits_max_tokens && max_tokens_cap_denies_when_exceeded
      && max_request_bytes_cap_denies_when_exceeded && soft_skip_falls_through_to_next_matching_rule
      && disabled_rule_is_ignored && empty_rule_name_fails_fast_at_compile)
    ≡ true
unfolding compile compile_rules compile_rule push_rule compile_matcher compile_patterns
    select_matcher strip_suffix trim trim_start trim_end keep_before is_whitespace starts_with
    evaluate evaluate_deny evaluate_allow
policy_tests = refl
