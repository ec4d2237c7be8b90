-- ===== src/Policy/Evaluate/Verdict.antt =====
-- What `evaluate` answers, read off the policy document.
use sekisho.Base.{
  ℕ, Bool, true, false, not, ◌&&◌, List, [], ◌∷◌, ◌++◌, ◌≡◌, refl, Option, none, some, any, find,
  arith, if◌then◌else◌, map_option, ok, ok_value, Option-cases, inl, inr,
}
use sekisho.Text.{Str}
use sekisho.Policy.{
  CompiledRule, applies_to_caller, CompiledPolicy, EvaluationRequest, PolicyDocument, compile,
}
use sekisho.Policy.Compile.{
  tokens_ok, bytes_ok, compiled_covers, compiled_admits, denies, admits, compile-denies,
  compile-admits,
}
use sekisho.Policy.Evaluate.{
  model_is_ok, evaluate_deny, tokens_check, bytes_check, violation, evaluate_allow, evaluate,
}

abbrev is_some {ℓ} : {A : Type ℓ} → Option A → Bool
is_some none = false
is_some (some a) = true

tokens_check_lem :
    (name : Str) (cap requested : Option ℕ)
    → is_some (tokens_check name cap requested) ≡ not (tokens_ok cap requested)
unfolding tokens_check
tokens_check_lem name none requested = refl
tokens_check_lem name (some cap) none = refl
tokens_check_lem name (some cap) (some requested) = ground arith

bytes_check_lem :
    (name : Str) (cap : Option ℕ) (request_bytes : ℕ)
    → is_some (bytes_check name cap request_bytes) ≡ not (bytes_ok cap request_bytes)
unfolding bytes_check
bytes_check_lem name none n = refl
bytes_check_lem name (some cap) n = ground arith

module _ (debug : Str → Str) where
  is_some-evaluate_deny :
      (rules : List CompiledRule) (request : EvaluationRequest)
      → is_some (evaluate_deny debug rules request) ≡ any (compiled_covers request) rules
  unfolding evaluate_deny model_is_ok
  is_some-evaluate_deny [] request = refl
  is_some-evaluate_deny (rule ∷ rules) request = ground (arith, is_some-evaluate_deny rules request)

  pub no_violation :
      (rule : CompiledRule) (request : EvaluationRequest)
      → (applies_to_caller rule request.caller_key && not (is_some (violation debug rule request)))
        ≡ compiled_admits request rule
  unfolding violation
  no_violation rule request = ground (
    arith,
    tokens_check_lem rule.name rule.max_tokens request.max_tokens,
    bytes_check_lem rule.name rule.max_request_bytes request.request_bytes,
  )

  ok_value-evaluate_allow :
      (errors : List Str) (rules : List CompiledRule) (request : EvaluationRequest)
      → ok_value (evaluate_allow debug errors rules request)
        ≡ map_option (λ r. r.name) (find (compiled_admits request) rules)
  unfolding evaluate_allow
  ok_value-evaluate_allow errors [] request = refl
  ok_value-evaluate_allow errors (rule ∷ rules) request =
      elim (Option-cases (violation debug rule request)) [
        | inl e ↦
            ground
              (arith, e, no_violation rule request, ok_value-evaluate_allow errors rules request)
        | inr (v, e) ↦ ground (
          arith,
          e,
          no_violation rule request,
          ok_value-evaluate_allow errors rules request,
          ok_value-evaluate_allow (errors ++ v ∷ []) rules request,
        )
      ]

  -- `evaluate` on a compiled document answers the name of the first rule of the document that
  -- admits the request, and denies where a rule of the document denies it or none admits it: the
  -- order of the deny rules and their place among the others do not matter.
  pub evaluate_verdict :
      (document : PolicyDocument) {policy : CompiledPolicy} (request : EvaluationRequest)
      → compile document ≡ ok policy
      → ok_value (evaluate debug policy request) ≡ (
          if any (denies request) document.rules
          then none
          else map_option (λ r. r.name) (find (admits request) document.rules))
  unfolding evaluate
  evaluate_verdict document {policy} request h = ground (
    arith,
    is_some-evaluate_deny policy.deny_rules request,
    ok_value-evaluate_allow [] policy.allow_rules request,
    compile-denies request document h,
    compile-admits request document h,
  )
