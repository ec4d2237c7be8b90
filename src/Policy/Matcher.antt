-- ===== src/Policy/Matcher.antt =====
-- `ModelMatcher`: what a compiled matcher accepts, read off the patterns.
use sekisho.Base.{
  Bool, ◌||◌, List, [], ◌∷◌, ◌++◌, ◌≡◌, refl, ◌∙◌, none, some, any, any-append, same, is_empty,
  arith, Option-cases, inl, inr,
}
use sekisho.Text.{Str, starts_with, strip_suffix}
use sekisho.Policy.{
  contains, any_prefix, compile_patterns, select_matcher, compile_matcher, matches,
}

-- A pattern that ends in `*` accepts the texts with its prefix, any other only itself.
abbrev pub pattern_accepts : Str → Str → Bool
pattern_accepts model pattern = elim (strip_suffix b'*' pattern) [
  | some p ↦ starts_with model p
  | none ↦ same model pattern
]

matches-select :
    (exacts prefixes : List Str) (model : Str)
    → matches (select_matcher (is_empty exacts) (is_empty prefixes) exacts prefixes) model
      ≡ (contains model exacts || any_prefix prefixes model)
unfolding matches select_matcher
matches-select [] [] model = refl
matches-select [] (p ∷ ps) model = refl
matches-select (e ∷ es) [] model = ground arith
matches-select (e ∷ es) (p ∷ ps) model = refl

Accepts : (patterns exacts prefixes : List Str) (model : Str) → Type 0
Accepts patterns exacts prefixes model =
    (contains model (compile_patterns exacts prefixes patterns).0
      || any_prefix (compile_patterns exacts prefixes patterns).1 model)
    ≡ ((contains model exacts || any_prefix prefixes model) || any (pattern_accepts model) patterns)

Accepts-compile_patterns :
    (patterns exacts prefixes : List Str) (model : Str) → Accepts patterns exacts prefixes model
unfolding Accepts compile_patterns
Accepts-compile_patterns [] exacts prefixes model = ground arith
Accepts-compile_patterns (q ∷ patterns) exacts prefixes model =
    elim (Option-cases (strip_suffix b'*' q)) [
      | inl e ↦ ground (arith, e, Accepts-compile_patterns patterns (q ∷ exacts) prefixes model)
      | inr (p, e) ↦ ground (
        arith,
        e,
        Accepts-compile_patterns patterns exacts (prefixes ++ p ∷ []) model,
        any-append (starts_with model) prefixes (p ∷ []),
      )
    ]

-- Whichever of its three forms `compile` chooses, a matcher accepts a model exactly if one of the
-- patterns that it was compiled from accepts it.
pub matches-compile_matcher :
    (patterns : List Str) (model : Str)
    → matches (compile_matcher patterns) model ≡ any (pattern_accepts model) patterns
unfolding compile_matcher Accepts
matches-compile_matcher patterns model =
    matches-select _ _ model ∙ Accepts-compile_patterns patterns [] [] model
