-- ===== src/Config/Env.antt =====
-- config.rs: a configuration read from the environment.
use mathlib.Core.Path.{subst}
use sekisho.Base.{
  false, not, List, [], ◌∷◌, map, Option, none, some, Option-cases, Result, ok, Result-cases, inl,
  inr, ◌≡◌, refl, is_empty, All, arith, sym, if◌then◌else◌, Bool-cases,
}
use sekisho.Text.{Str, lit, trim, split}
use sekisho.Policy.{PolicyDocument}
use sekisho.External.{External}
use sekisho.Config.Hash.{from_raw_sound}
use sekisho.Config.{
  RawConfig, AppConfig, from_raw, nonempty_env, nonempty, env_caller_keys, env_policy, env_raw,
  load_from_dev_env, load_from_env,
}

abbrev pub IsPresent : Str → Type 0
IsPresent s = is_empty s ≡ false

-- A provider key that is absent or not blank.
abbrev pub IsKey : Option Str → Type 0
IsKey none = Unit
IsKey (some key) = is_empty (trim key) ≡ false

kept_if :
    (s : Str) (ss : List Str)
    → All IsPresent ss
    → All IsPresent (if not (is_empty s) then s ∷ ss else ss)
kept_if [] ss h = h
kept_if (c ∷ s) ss h = (refl, h)

module _ (x : External) (env : Str → Option Str) where
  nonempty-IsPresent : (ss : List Str) → All IsPresent (nonempty x env ss)
  nonempty-IsPresent [] = tt
  nonempty-IsPresent (s ∷ ss) = kept_if s (nonempty x env ss) (nonempty-IsPresent ss)

  env_caller_keys-IsPresent : All IsPresent (env_caller_keys x env)
  unfolding env_caller_keys
  env_caller_keys-IsPresent = elim (Option-cases (env (lit "SEKISHO_CALLER_KEYS"))) [
    | inl n ↦ rw (env_caller_keys, n) tt
    | inr (v, s) ↦ rw (env_caller_keys, s) (nonempty-IsPresent (map trim (split b',' v)))
  ]

  nonempty_env-IsKey : (name : Str) → IsKey (nonempty_env x env name)
  unfolding nonempty_env
  nonempty_env-IsKey name = elim (Option-cases (env name)) [
    | inl n ↦ rw (nonempty_env, n) tt
    | inr (v, s) ↦ elim (Bool-cases (is_empty (trim v))) [
      | inl b ↦ rw (nonempty_env, s, b) tt
      | inr b ↦ rw (nonempty_env, s, b) b
    ]
  ]

  from_raw_keys :
      (raw : RawConfig) (c : AppConfig)
      → from_raw x raw ≡ ok c
      → (c.caller_keys ≡ raw.caller_keys)
        × (c.anthropic_api_key ≡ raw.anthropic_api_key)
        × (c.openai_api_key ≡ raw.openai_api_key)
  unfolding from_raw
  from_raw_keys raw c h = ground arith

  -- A configuration that loads from the environment, no file being named there, has no blank
  -- provider key, at least one caller key, and none that is empty.
  pub load_from_env-IsPresent :
      (parse_policy : Str → Result PolicyDocument Str) (read : Str → Result Str Str)
      (parse : Str → Result RawConfig Str) (c : AppConfig)
      → env (lit "SEKISHO_CONFIG") ≡ none
      → load_from_env x env parse_policy read parse ≡ ok c
      → IsKey c.anthropic_api_key
        × IsKey c.openai_api_key
        × (is_empty c.caller_keys ≡ false)
        × All IsPresent c.caller_keys
  unfolding load_from_env load_from_dev_env
  load_from_env-IsPresent parse_policy read parse c n h =
      elim (Result-cases (env_policy x env parse_policy (env (lit "SEKISHO_POLICY_JSON")))) [
        | inr (e, p) ↦ absurd (ground (arith, n, p, h))
        | inl (policy, p) ↦
            let raw = env_raw x env policy in
            let loaded : from_raw x raw ≡ ok c =
              rw (sym h, load_from_env, n, load_from_dev_env, p) refl in
            let (callers, anthropic, openai) = from_raw_keys raw c loaded in
            (
              subst IsKey (sym anthropic) (nonempty_env-IsKey (lit "SEKISHO_ANTHROPIC_API_KEY")),
              subst IsKey (sym openai) (nonempty_env-IsKey (lit "SEKISHO_OPENAI_API_KEY")),
              (from_raw_sound x raw c loaded).0,
              subst (All IsPresent) (sym callers) env_caller_keys-IsPresent,
            )
      ]
