-- ===== src/Policy/Runs.antt =====
-- A policy of three rules at two requests.
use sekisho.Base.{
  true, false, [], ◌∷◌, none, some, ok, ok_value, ◌≡◌, refl, if◌then◌else◌, any, find, map_option,
  err, ◌++◌,
}
use sekisho.Text.{lit, strip_suffix, trim, trim_start, trim_end, keep_before, is_whitespace}
use sekisho.Policy.{
  PolicyRule, PolicyDocument, CompiledPolicy, EvaluationRequest, allow, deny, prefix, mixed,
  compile, compile_rules, compile_rule, push_rule, compile_matcher, compile_patterns,
  select_matcher,
}
use sekisho.Policy.Compile.{compiled_covers, compiled_admits, denies, admits}
use sekisho.Policy.Evaluate.{evaluate}
use sekisho.Policy.Evaluate.Reasons.{refusal, violations, evaluate_reason}
use sekisho.Policy.Evaluate.Verdict.{evaluate_verdict}
use sekisho.Fixtures.{external}

abbrev documents_rule : PolicyRule
documents_rule = record {
  name = lit "block-o1";
  action = deny;
  enabled = true;
  caller_keys = none;
  allowed_models = some (lit "o1-*" ∷ []);
  max_tokens = none;
  max_request_bytes = none;
}

abbrev capped_rule : PolicyRule
capped_rule = record {
  name = lit "capped";
  action = allow;
  enabled = true;
  caller_keys = some (lit "key" ∷ []);
  allowed_models = some (lit "gpt-4o" ∷ lit "claude-*" ∷ []);
  max_tokens = some 1000;
  max_request_bytes = some 4096;
}

abbrev disabled_rule : PolicyRule
disabled_rule = record {
  name = [];
  action = allow;
  enabled = false;
  caller_keys = none;
  allowed_models = none;
  max_tokens = none;
  max_request_bytes = none;
}

abbrev document : PolicyDocument
document = record { rules = disabled_rule ∷ documents_rule ∷ capped_rule ∷ [] }

abbrev compiled : CompiledPolicy
compiled = record {
  deny_rules =
      record {
        name = lit "block-o1";
        caller_keys = none;
        model_matcher = some (prefix (lit "o1-" ∷ []));
        max_tokens = none;
        max_request_bytes = none;
      }
      ∷ [];
  allow_rules =
      record {
        name = lit "capped";
        caller_keys = some (lit "key" ∷ []);
        model_matcher = some (mixed (lit "gpt-4o" ∷ []) (lit "claude-" ∷ []));
        max_tokens = some 1000;
        max_request_bytes = some 4096;
      }
      ∷ [];
}

compile_run : compile document ≡ ok compiled
unfolding compile compile_rules compile_rule push_rule compile_matcher compile_patterns
    select_matcher strip_suffix trim trim_start trim_end keep_before is_whitespace
compile_run = refl

abbrev request : EvaluationRequest
request = record {
  caller_key = lit "key";
  model = lit "claude-3";
  max_tokens = some 500;
  request_bytes = 100;
}

evaluate_verdict_example : ok_value (evaluate external.debug compiled request) ≡ (
    if any (denies request) document.rules
    then none
    else map_option (λ r. r.name) (find (admits request) document.rules))
evaluate_verdict_example = evaluate_verdict external.debug document request compile_run

-- A request that the cap of the only rule is too low for.
abbrev greedy : EvaluationRequest
greedy = record request { max_tokens = some 5000 }

evaluate_reason_example :
    evaluate external.debug compiled greedy
    ≡ elim (find (compiled_covers greedy) compiled.deny_rules) [
      | some rule ↦ err (record { reason = lit "denied by policy " ++ rule.name })
      | none ↦ elim (find (compiled_admits greedy) compiled.allow_rules) [
        | some rule ↦ ok rule.name
        | none ↦
            err
              (record { reason = refusal (violations external.debug greedy compiled.allow_rules) })
      ]
    ]
evaluate_reason_example = evaluate_reason external.debug greedy compiled
