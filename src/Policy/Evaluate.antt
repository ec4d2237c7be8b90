-- ===== src/Policy/Evaluate.antt =====
-- policy.rs: `CompiledPolicy::evaluate`.
pub mod Verdict
pub mod Reasons
use sekisho.Base.{ℕ, Bool, true, not, List, [], ◌∷◌, ◌++◌, Option, none, some}
use sekisho.Base.{if◌then◌else◌, is_empty, join, ltb, Result, ok, err}
use sekisho.Text.{Str, lit}
use sekisho.Text.Decimal.{decimal}
use sekisho.Policy.{
  ModelMatcher, matches, CompiledRule, applies_to_caller, CompiledPolicy, EvaluationRequest,
  PolicyDenial,
}

pub model_is_ok : Option ModelMatcher → Str → Bool
unfolding matches
model_is_ok none model = true
model_is_ok (some matcher) model = matches matcher model

-- The `match` on `request.max_tokens`; an absent number is over every cap.
tokens_violation : Str → ℕ → Option ℕ → Option Str
tokens_violation name cap none =
    some
      (name ++ lit ": request omits max_tokens (unbounded) but the rule caps it at " ++ decimal cap)
tokens_violation name cap (some requested) =
    if ltb cap requested
    then some
        (name ++ lit ": max_tokens " ++ decimal requested ++ lit " exceeds cap " ++ decimal cap)
    else none

tokens_check : Str → Option ℕ → Option ℕ → Option Str
unfolding tokens_violation
tokens_check name none requested = none
tokens_check name (some cap) requested = tokens_violation name cap requested

bytes_check : Str → Option ℕ → ℕ → Option Str
bytes_check name none request_bytes = none
bytes_check name (some cap) request_bytes =
    if ltb cap request_bytes
    then some (
        name
        ++ lit ": request_bytes "
        ++ decimal request_bytes
        ++ lit " exceeds cap "
        ++ decimal cap)
    else none

or_else : Option Str → Option Str → Option Str
or_else (some e) rest = some e
or_else none rest = rest

-- `debug` is Rust's `{:?}` on a string, which escapes it by tables of the Unicode standard.
module _ (debug : Str → Str) where
  -- The first loop of `evaluate`: the denial of the first deny rule that matches.
  unfoldable pub evaluate_deny : List CompiledRule → EvaluationRequest → Option PolicyDenial
  unfolding applies_to_caller model_is_ok
  evaluate_deny [] request = none
  evaluate_deny (rule ∷ rules) request =
      let rest = evaluate_deny rules request in
      if not (applies_to_caller rule request.caller_key)
      then rest
      else if model_is_ok rule.model_matcher request.model
      then some (record { reason = lit "denied by policy " ++ debug rule.name })
      else rest

  -- The error that an allow rule pushes for a request, or `none` if the rule lets it through.
  pub violation : CompiledRule → EvaluationRequest → Option Str
  unfolding model_is_ok tokens_check bytes_check or_else
  violation rule request =
      if not (model_is_ok rule.model_matcher request.model)
      then some (rule.name ++ lit ": model " ++ debug request.model ++ lit " not allowed")
      else or_else (tokens_check rule.name rule.max_tokens request.max_tokens)
          (bytes_check rule.name rule.max_request_bytes request.request_bytes)

  -- The second loop of `evaluate`, over its list of errors.
  unfoldable pub evaluate_allow :
      List Str → List CompiledRule → EvaluationRequest → Result Str PolicyDenial
  unfolding applies_to_caller violation
  evaluate_allow errors [] request = err (record {
    reason =
        if is_empty errors then lit "no policy matched this caller" else join (lit " | ") errors;
  })
  evaluate_allow errors (rule ∷ rules) request =
      let skipped = evaluate_allow errors rules request in
      if not (applies_to_caller rule request.caller_key)
      then skipped
      else elim (violation rule request) [
        | some e ↦ evaluate_allow (errors ++ e ∷ []) rules request
        | none ↦ ok rule.name
      ]

  unfoldable pub evaluate : CompiledPolicy → EvaluationRequest → Result Str PolicyDenial
  unfolding evaluate_deny evaluate_allow
  evaluate policy request = elim (evaluate_deny policy.deny_rules request) [
    | some denial ↦ err denial
    | none ↦ evaluate_allow [] policy.allow_rules request
  ]
