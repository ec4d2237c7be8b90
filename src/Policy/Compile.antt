-- ===== src/Policy/Compile.antt =====
-- `CompiledPolicy::compile`: which documents it refuses, and what a compiled policy still says of
-- the rules of its document.
use sekisho.Base.{
  ℕ, Bool, true, false, not, ◌&&◌, ◌||◌, List, [], ◌∷◌, ◌++◌, ◌≡◌, refl, ap, Option, none, some,
  any, any-append, find, arith, is_empty, if◌then◌else◌, leb, map_option, Result, ok, err,
}
use sekisho.Text.{Str, trim}
use sekisho.Policy.{
  PolicyAction, allow, deny, PolicyRule, PolicyDocument, ModelMatcher, matches, compile_matcher,
  CompiledRule, CompiledPolicy, EvaluationRequest, applies_to, applies_to_caller, compile_rule,
  push_rule, compile_rules, compile,
}
use sekisho.Policy.Matcher.{pattern_accepts, matches-compile_matcher}

abbrev models_ok : Option (List Str) → Str → Bool
models_ok none model = true
models_ok (some patterns) model = any (pattern_accepts model) patterns

-- An absent number of tokens is over every cap.
abbrev pub tokens_ok : Option ℕ → Option ℕ → Bool
tokens_ok none requested = true
tokens_ok (some cap) none = false
tokens_ok (some cap) (some requested) = leb requested cap

abbrev pub bytes_ok : Option ℕ → ℕ → Bool
bytes_ok none request_bytes = true
bytes_ok (some cap) request_bytes = leb request_bytes cap

abbrev is_deny : PolicyAction → Bool
is_deny deny = true
is_deny allow = false

-- A rule of a document speaks of this caller and this model.
abbrev covers : EvaluationRequest → PolicyRule → Bool
covers request rule =
    applies_to rule.caller_keys request.caller_key && models_ok rule.allowed_models request.model

-- A rule of a document denies a request.
abbrev pub denies : EvaluationRequest → PolicyRule → Bool
denies request rule = rule.enabled && is_deny rule.action && covers request rule

-- A rule of a document admits a request, its two caps included.
abbrev pub admits : EvaluationRequest → PolicyRule → Bool
admits request rule =
    rule.enabled
    && not (is_deny rule.action)
    && covers request rule
    && tokens_ok rule.max_tokens request.max_tokens
    && bytes_ok rule.max_request_bytes request.request_bytes

-- The same, of compiled rules.
abbrev matcher_ok : Option ModelMatcher → Str → Bool
matcher_ok none model = true
matcher_ok (some matcher) model = matches matcher model

abbrev pub compiled_covers : EvaluationRequest → CompiledRule → Bool
compiled_covers request rule =
    applies_to_caller rule request.caller_key && matcher_ok rule.model_matcher request.model

abbrev pub compiled_admits : EvaluationRequest → CompiledRule → Bool
compiled_admits request rule =
    compiled_covers request rule
    && tokens_ok rule.max_tokens request.max_tokens
    && bytes_ok rule.max_request_bytes request.request_bytes

-- A rule that is compiled and has a name of white space alone.
abbrev pub is_blank : PolicyRule → Bool
is_blank rule = rule.enabled && is_empty (trim rule.name)

abbrev pub is_err {ℓ} : {A E : Type ℓ} → Result A E → Bool
is_err (ok a) = false
is_err (err e) = true

compile_rules_fails :
    (p : CompiledPolicy) (rules : List PolicyRule)
    → is_err (compile_rules p rules) ≡ any is_blank rules
unfolding compile_rules
compile_rules_fails p [] = refl
compile_rules_fails p (rule ∷ rules) = ground (
  arith,
  compile_rules_fails p rules,
  compile_rules_fails (push_rule rule.action (compile_rule rule) p) rules,
)

-- Compilation refuses a document exactly if one of its enabled rules has a blank name; a disabled
-- rule is never a reason.
pub compile_fails :
    (document : PolicyDocument) → is_err (compile document) ≡ any is_blank document.rules
unfolding compile
compile_fails document = compile_rules_fails _ document.rules

matcher_ok-compile_rule :
    (models : Option (List Str)) (model : Str)
    → matcher_ok (elim models [ none ↦ none | some ps ↦ some (compile_matcher ps) ]) model
      ≡ models_ok models model
matcher_ok-compile_rule none model = refl
matcher_ok-compile_rule (some ps) model = matches-compile_matcher ps model

covers-compile_rule :
    (request : EvaluationRequest) (rule : PolicyRule)
    → compiled_covers request (compile_rule rule) ≡ covers request rule
unfolding compile_rule applies_to_caller
covers-compile_rule request rule =
    ap (λ b. applies_to rule.caller_keys request.caller_key && b)
      (matcher_ok-compile_rule rule.allowed_models request.model)

first_some {ℓ} : {A : Type ℓ} → Option A → Option A → Option A
first_some none o = o
first_some (some a) o = some a

abbrev named : (CompiledRule → Bool) → List CompiledRule → Option Str
named p rules = map_option (λ r. r.name) (find p rules)

named-append :
    (p : CompiledRule → Bool) (xs ys : List CompiledRule)
    → named p (xs ++ ys) ≡ first_some (named p xs) (named p ys)
unfolding first_some
named-append p [] ys = refl
named-append p (x ∷ xs) ys = ground (arith, named-append p xs ys)

module _ (request : EvaluationRequest) where
  push_rule-denies :
      (action : PolicyAction) (rule : PolicyRule) (p : CompiledPolicy)
      → any (compiled_covers request) (push_rule action (compile_rule rule) p).deny_rules
        ≡ (any (compiled_covers request) p.deny_rules || (is_deny action && covers request rule))
  unfolding push_rule
  push_rule-denies allow rule p = ground arith
  push_rule-denies deny rule p = ground (
    arith,
    any-append (compiled_covers request) p.deny_rules (compile_rule rule ∷ []),
    covers-compile_rule request rule,
  )

  push_rule-admits :
      (action : PolicyAction) (rule : PolicyRule) (p : CompiledPolicy)
      → named (compiled_admits request) (push_rule action (compile_rule rule) p).allow_rules
        ≡ first_some (named (compiled_admits request) p.allow_rules) (
            if not (is_deny action)
              && covers request rule
              && tokens_ok rule.max_tokens request.max_tokens
              && bytes_ok rule.max_request_bytes request.request_bytes
            then some rule.name
            else none)
  unfolding push_rule first_some compile_rule
  push_rule-admits deny rule p = ground arith
  push_rule-admits allow rule p = ground (
    arith,
    named-append (compiled_admits request) p.allow_rules (compile_rule rule ∷ []),
    covers-compile_rule request rule,
  )

  -- The deny rules of a compiled policy cover a request exactly if the document has a rule that
  -- denies it.
  compile_rules-denies :
      (rules : List PolicyRule) (p q : CompiledPolicy)
      → compile_rules p rules ≡ ok q
      → any (compiled_covers request) q.deny_rules
        ≡ (any (compiled_covers request) p.deny_rules || any (denies request) rules)
  unfolding compile_rules
  compile_rules-denies [] p q h = ground arith
  compile_rules-denies (rule ∷ rules) p q h = ground (
    arith,
    push_rule-denies rule.action rule p,
    compile_rules-denies rules p q,
    compile_rules-denies rules (push_rule rule.action (compile_rule rule) p) q,
  )

  compile_rules-admits :
      (rules : List PolicyRule) (p q : CompiledPolicy)
      → compile_rules p rules ≡ ok q
      → named (compiled_admits request) q.allow_rules
        ≡ first_some
            (named (compiled_admits request) p.allow_rules)
            (map_option (λ r. r.name) (find (admits request) rules))
  unfolding compile_rules first_some
  compile_rules-admits [] p q h = ground arith
  compile_rules-admits (rule ∷ rules) p q h = ground (
    arith,
    push_rule-admits rule.action rule p,
    compile_rules-admits rules p q,
    compile_rules-admits rules (push_rule rule.action (compile_rule rule) p) q,
  )

  pub compile-denies :
      (document : PolicyDocument) {p : CompiledPolicy}
      → compile document ≡ ok p
      → any (compiled_covers request) p.deny_rules ≡ any (denies request) document.rules
  unfolding compile
  compile-denies document {p} = compile_rules-denies document.rules _ p

  pub compile-admits :
      (document : PolicyDocument) {p : CompiledPolicy}
      → compile document ≡ ok p
      → map_option (λ r. r.name) (find (compiled_admits request) p.allow_rules)
        ≡ map_option (λ r. r.name) (find (admits request) document.rules)
  unfolding compile first_some
  compile-admits document {p} = compile_rules-admits document.rules _ p
