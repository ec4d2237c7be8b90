-- ===== src/Policy/Evaluate/Reasons.antt =====
-- policy.rs: the denials of `evaluate`, with their texts.
use sekisho.Base.{
  List, [], ◌∷◌, ◌++◌, ◌≡◌, refl, Option, none, some, find, Result, ok, err, is_empty, join, arith,
  if◌then◌else◌, Option-cases, Bool-cases, inl, inr,
}
use mathlib.Core.List.{append_assoc, append-nil}
use sekisho.Text.{Str, lit}
use sekisho.Policy.{
  CompiledRule, applies_to_caller, CompiledPolicy, EvaluationRequest, PolicyDenial,
}
use sekisho.Policy.Compile.{compiled_covers, compiled_admits}
use sekisho.Policy.Evaluate.{model_is_ok, violation, evaluate_deny, evaluate_allow, evaluate}
use sekisho.Policy.Evaluate.Verdict.{no_violation}

-- The text of a denial by allow rules that let nothing through.
abbrev pub refusal : List Str → Str
refusal errors =
    if is_empty errors then lit "no policy matched this caller" else join (lit " | ") errors

module _ (debug : Str → Str) (request : EvaluationRequest) where
  -- What the rules that speak of the caller find wrong with the request, in the order of the rules.
  abbrev pub violations : List CompiledRule → List Str
  unfolding violation
  violations [] = []
  violations (rule ∷ rules) =
      let rest = violations rules in
      if applies_to_caller rule request.caller_key
      then elim (violation debug rule request) [ some e ↦ e ∷ rest | none ↦ rest ]
      else rest

  evaluate_deny_lem :
      (rules : List CompiledRule)
      → evaluate_deny debug rules request ≡ elim (find (compiled_covers request) rules) [
        | none ↦ none
        | some rule ↦ some (record { reason = lit "denied by policy " ++ debug rule.name })
      ]
  unfolding evaluate_deny model_is_ok
  evaluate_deny_lem [] = refl
  evaluate_deny_lem (rule ∷ rules) = ground (arith, evaluate_deny_lem rules)

  -- The second loop, as a search and the violations of all rules.
  abbrev settled : List Str → Option CompiledRule → Result Str PolicyDenial
  settled errors none = err (record { reason = refusal errors })
  settled errors (some rule) = ok rule.name

  evaluate_allow_lem :
      (errors : List Str) (rules : List CompiledRule)
      → evaluate_allow debug errors rules request
        ≡ settled (errors ++ violations rules) (find (compiled_admits request) rules)
  unfolding evaluate_allow
  evaluate_allow_lem errors [] = rw (append-nil errors) refl
  evaluate_allow_lem errors (rule ∷ rules) =
      elim (Bool-cases (applies_to_caller rule request.caller_key)) [
        | inr a ↦
            ground (arith, a, no_violation debug rule request, evaluate_allow_lem errors rules)
        | inl a ↦ elim (Option-cases (violation debug rule request)) [
          | inl e ↦ ground (arith, a, e, no_violation debug rule request)
          | inr (v, e) ↦ ground (
            arith,
            a,
            e,
            no_violation debug rule request,
            evaluate_allow_lem (errors ++ v ∷ []) rules,
            append_assoc errors (v ∷ []) (violations rules),
          )
        ]
      ]

  -- A denial names the first deny rule that covers the request; if there is none and no allow rule
  -- admits the request, it lists what every allow rule of the caller finds wrong with it, in the order
  -- of the rules, and says that no policy matched if no allow rule is about the caller.
  pub evaluate_reason :
      (policy : CompiledPolicy)
      → evaluate debug policy request ≡ elim (find (compiled_covers request) policy.deny_rules) [
        | some rule ↦ err (record { reason = lit "denied by policy " ++ debug rule.name })
        | none ↦ elim (find (compiled_admits request) policy.allow_rules) [
          | some rule ↦ ok rule.name
          | none ↦ err (record { reason = refusal (violations policy.allow_rules) })
        ]
      ]
  unfolding evaluate
  evaluate_reason policy = elim (Option-cases (find (compiled_covers request) policy.deny_rules)) [
    | inr (rule, e) ↦ rw (evaluate, evaluate_deny_lem policy.deny_rules, e) refl
    | inl e ↦ elim (Option-cases (find (compiled_admits request) policy.allow_rules)) [
      | inr (rule, a) ↦
          rw
            (
              evaluate,
              evaluate_deny_lem policy.deny_rules,
              e,
              evaluate_allow_lem [] policy.allow_rules,
              a,
            )
            refl
      | inl a ↦
          rw
            (
              evaluate,
              evaluate_deny_lem policy.deny_rules,
              e,
              evaluate_allow_lem [] policy.allow_rules,
              a,
            )
            refl
    ]
  ]
