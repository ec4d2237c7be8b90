-- ===== src/Policy.antt =====
-- policy.rs: the policy document, its compilation and its evaluation.
pub mod Matcher
pub mod Compile
mod Runs
mod Tests
pub mod Evaluate
use sekisho.Base.{ℕ, Bool, true, false, not, ◌||◌, List, [], ◌∷◌, ◌++◌, Option, none, some}
use sekisho.Base.{if◌then◌else◌, is_empty, any, same, Result, ok, err}
use sekisho.Text.{Str, lit, trim, starts_with, strip_suffix}

pub data PolicyAction : Type 0 where
  allow : PolicyAction
  deny : PolicyAction

abbrev pub default_action : PolicyAction
default_action = allow

abbrev pub default_true : Bool
default_true = true

pub record PolicyRule : Type 0 where
  pub name : Str
  pub action : PolicyAction
  pub enabled : Bool
  pub caller_keys : Option (List Str)
  pub allowed_models : Option (List Str)
  pub max_tokens : Option ℕ
  pub max_request_bytes : Option ℕ

pub record PolicyDocument : Type 0 where
  pub rules : List PolicyRule

pub data PolicyLoadError : Type 0 where
  invalid_rule : (name reason : Str) → PolicyLoadError

-- A `HashSet<String>` is asked only whether it holds a text and whether it is empty.
abbrev pub HashSet : Type 0
HashSet = List Str

abbrev pub contains : Str → HashSet → Bool
contains s = any (same s)

pub data ModelMatcher : Type 0 where
  exact : HashSet → ModelMatcher
  prefix : List Str → ModelMatcher
  mixed : HashSet → List Str → ModelMatcher

-- The loop of `ModelMatcher::compile`, over its two collections.
compile_patterns : HashSet → List Str → List Str → HashSet × List Str
compile_patterns exacts prefixes [] = (exacts, prefixes)
compile_patterns exacts prefixes (pattern ∷ patterns) = elim (strip_suffix b'*' pattern) [
  | some p ↦ compile_patterns exacts (prefixes ++ p ∷ []) patterns
  | none ↦ compile_patterns (pattern ∷ exacts) prefixes patterns
]

select_matcher : Bool → Bool → HashSet → List Str → ModelMatcher
select_matcher false true exacts prefixes = exact exacts
select_matcher true false exacts prefixes = prefix prefixes
select_matcher _ _ exacts prefixes = mixed exacts prefixes

pub compile_matcher : List Str → ModelMatcher
unfolding compile_patterns select_matcher
compile_matcher patterns =
    let (exacts, prefixes) = compile_patterns [] [] patterns in
    select_matcher (is_empty exacts) (is_empty prefixes) exacts prefixes

abbrev any_prefix : List Str → Str → Bool
any_prefix prefixes model = any (starts_with model) prefixes

pub matches : ModelMatcher → Str → Bool
matches (exact set) model = contains model set
matches (prefix prefixes) model = any_prefix prefixes model
matches (mixed set prefixes) model = contains model set || any_prefix prefixes model

pub record CompiledRule : Type 0 where
  pub name : Str
  pub caller_keys : Option HashSet
  pub model_matcher : Option ModelMatcher
  pub max_tokens : Option ℕ
  pub max_request_bytes : Option ℕ

pub applies_to : Option HashSet → Str → Bool
applies_to none caller_key = true
applies_to (some keys) caller_key = contains caller_key keys

pub applies_to_caller : CompiledRule → Str → Bool
unfolding applies_to
applies_to_caller rule = applies_to rule.caller_keys

pub record CompiledPolicy : Type 0 where
  pub deny_rules : List CompiledRule
  pub allow_rules : List CompiledRule

pub record EvaluationRequest : Type 0 where
  pub caller_key : Str
  pub model : Str
  pub max_tokens : Option ℕ
  pub request_bytes : ℕ

pub record PolicyDenial : Type 0 where
  pub reason : Str

unfoldable pub compile_rule : PolicyRule → CompiledRule
compile_rule rule = record {
  name = rule.name;
  caller_keys = rule.caller_keys;
  model_matcher = elim rule.allowed_models [
    | none ↦ none
    | some patterns ↦ some (compile_matcher patterns)
  ];
  max_tokens = rule.max_tokens;
  max_request_bytes = rule.max_request_bytes;
}

unfoldable pub push_rule : PolicyAction → CompiledRule → CompiledPolicy → CompiledPolicy
push_rule deny rule p = record p { deny_rules = p.deny_rules ++ rule ∷ [] }
push_rule allow rule p = record p { allow_rules = p.allow_rules ++ rule ∷ [] }

-- The loop of `CompiledPolicy::compile`: a disabled rule is skipped, a blank name stops it.
unfoldable pub compile_rules :
    CompiledPolicy → List PolicyRule → Result CompiledPolicy PolicyLoadError
unfolding compile_rule push_rule
compile_rules p [] = ok p
compile_rules p (rule ∷ rules) =
    let skipped = compile_rules p rules in
    let pushed = compile_rules (push_rule rule.action (compile_rule rule) p) rules in
    if not rule.enabled
    then skipped
    else if is_empty (trim rule.name)
    then err (invalid_rule rule.name (lit "rule name must not be empty"))
    else pushed

unfoldable pub compile : PolicyDocument → Result CompiledPolicy PolicyLoadError
unfolding compile_rules
compile document = compile_rules (record { deny_rules = []; allow_rules = [] }) document.rules
