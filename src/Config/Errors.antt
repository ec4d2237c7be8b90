-- ===== src/Config/Errors.antt =====
-- config.rs: which configurations are refused.
use sekisho.Base.{
  Bool, true, ◌||◌, Option, none, some, Result, ok, ok_value, ◌≡◌, refl, is_empty, any,
  Result-cases, Option-cases, Bool-cases, inl, inr, ap, sym, ◌∙◌, and_then, map_option,
}
use sekisho.Text.{Str, Bytes, lit}
use sekisho.Canonical.Serialize.{sha256_of}
use sekisho.Policy.{PolicyDocument, compile}
use sekisho.Policy.Compile.{is_err, is_blank, compile_fails}
use sekisho.Config.{
  RawConfig, policy_value, from_raw, load_from_file, load_from_dev_env, env_policy, env_raw,
  load_from_env,
}
use sekisho.External.{External}

-- A configuration without a caller key, or with an enabled rule of a blank name.
abbrev pub is_faulty : RawConfig → Bool
is_faulty raw = is_empty raw.caller_keys || any is_blank raw.policy.rules

module _ (x : External)
    (hash_total : (document : PolicyDocument)
      → (hash : Bytes) × (sha256_of x.hashing (policy_value document) ≡ ok hash)) where
  from_raw_fails : (raw : RawConfig) → is_err (from_raw x raw) ≡ is_faulty raw
  unfolding from_raw
  from_raw_fails raw =
      let (hash, e) = hash_total raw.policy in
      elim (Bool-cases (is_empty raw.caller_keys)) [
        | inl k ↦ rw (from_raw, k) refl
        | inr k ↦ elim (Result-cases (compile raw.policy)) [
          | inl (policy, p) ↦ rw (from_raw, k, e, p) (sym (ap is_err p) ∙ compile_fails raw.policy)
          | inr (error, p) ↦ rw (from_raw, k, e, p) (sym (ap is_err p) ∙ compile_fails raw.policy)
        ]
      ]

  -- Where the environment says that a configuration comes from, and what can be read there.
  abbrev pub configured :
      (Str → Option Str)
      → (Str → Result PolicyDocument Str)
      → (Str → Result Str Str)
      → (Str → Result RawConfig Str)
      → Option RawConfig
  unfolding env_policy
  configured env parse_policy read parse = elim (env (lit "SEKISHO_CONFIG")) [
    | some path ↦ and_then (ok_value (read path)) (λ contents. ok_value (parse contents))
    | none ↦
        map_option (env_raw x env)
          (ok_value (env_policy x env parse_policy (env (lit "SEKISHO_POLICY_JSON"))))
  ]

  -- The enclave refuses to start with a configuration exactly if the file that the environment names
  -- is not read or not parsed, or without a file its policy is not parsed, or there is no caller key, or
  -- an enabled rule has a blank name; hashing the policy, which is a hypothesis, does not fail.
  pub load_from_env_fails :
      (env : Str → Option Str) (parse_policy : Str → Result PolicyDocument Str)
      (read : Str → Result Str Str) (parse : Str → Result RawConfig Str)
      → is_err (load_from_env x env parse_policy read parse)
        ≡ elim (configured env parse_policy read parse) [ none ↦ true | some raw ↦ is_faulty raw ]
  unfolding load_from_env load_from_file load_from_dev_env
  load_from_env_fails env parse_policy read parse =
      elim (Option-cases (env (lit "SEKISHO_CONFIG"))) [
        | inr (path, s) ↦ elim (Result-cases (read path)) [
          | inr (error, r) ↦ rw (load_from_env, s, load_from_file, r) refl
          | inl (contents, r) ↦ elim (Result-cases (parse contents)) [
            | inr (error, q) ↦ rw (load_from_env, s, load_from_file, r, q) refl
            | inl (raw, q) ↦ rw (load_from_env, s, load_from_file, r, q) (from_raw_fails raw)
          ]
        ]
        | inl n ↦
            elim (Result-cases (env_policy x env parse_policy (env (lit "SEKISHO_POLICY_JSON")))) [
              | inr (error, p) ↦ rw (load_from_env, n, load_from_dev_env, p) refl
              | inl (policy, p) ↦
                  rw (load_from_env, n, load_from_dev_env, p)
                    (from_raw_fails (env_raw x env policy))
            ]
      ]
