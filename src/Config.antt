-- ===== src/Config.antt =====
-- config.rs: the boot configuration.
pub mod Hash
pub mod Env
pub mod Errors
pub mod Runs
mod Tests
use sekisho.Base.{
  ℕ, true, false, not, List, [], ◌∷◌, map, Option, none, some, Result, ok, err, if◌then◌else◌,
  is_empty, map_option, unwrap_or,
}
use sekisho.Text.{Str, Bytes, lit, trim, split}
use sekisho.Json.{Value, null, bool, string, array, object, number, pos_int, of_list, object_of}
use sekisho.Canonical.Serialize.{sha256_of}
use sekisho.Policy.{
  PolicyAction, allow, deny, PolicyRule, PolicyDocument, PolicyLoadError, CompiledPolicy, compile,
}
use sekisho.Receipt.Stored.{default_ring_buffer_size}
use sekisho.External.{External}

abbrev pub default_max_body_bytes : ℕ
default_max_body_bytes = 1048576

abbrev pub default_concurrency_limit : ℕ
default_concurrency_limit = 16

pub record RawConfig : Type 0 where
  pub anthropic_api_key : Option Str
  pub openai_api_key : Option Str
  pub caller_keys : List Str
  pub policy : PolicyDocument
  pub max_body_bytes : ℕ
  pub concurrency_limit : ℕ
  pub receipt_ring_buffer_size : ℕ

pub data ConfigError : Type 0 where
  read_error : (path source : Str) → ConfigError
  parse_error : Str → ConfigError
  hash_error : Str → ConfigError
  policy_error : PolicyLoadError → ConfigError
  no_caller_keys : ConfigError

pub record AppConfig : Type 0 where
  pub anthropic_api_key : Option Str
  pub openai_api_key : Option Str
  pub caller_keys : List Str
  pub policy : CompiledPolicy
  pub max_body_bytes : ℕ
  pub concurrency_limit : ℕ
  pub receipt_ring_buffer_size : ℕ
  pub config_hash : Bytes

abbrev action_name : PolicyAction → Str
action_name allow = lit "allow"
action_name deny = lit "deny"

abbrev texts_value : Option (List Str) → Value
texts_value none = null
texts_value (some ts) = array (of_list (map string ts))

abbrev number_value : Option ℕ → Value
number_value none = null
number_value (some n) = number (pos_int n)

-- What `#[derive(Serialize)]` makes of a policy document.
rule_value : PolicyRule → Value
rule_value r = object (
    object_of (
      (lit "name", string r.name)
      ∷ (lit "action", string (action_name r.action))
      ∷ (lit "enabled", bool r.enabled)
      ∷ (lit "caller_keys", texts_value r.caller_keys)
      ∷ (lit "allowed_models", texts_value r.allowed_models)
      ∷ (lit "max_tokens", number_value r.max_tokens)
      ∷ (lit "max_request_bytes", number_value r.max_request_bytes)
      ∷ []))

pub policy_value : PolicyDocument → Value
unfolding rule_value
policy_value document =
    object (object_of ((lit "rules", array (of_list (map rule_value document.rules))) ∷ []))

module _ (x : External) where
  pub from_raw : RawConfig → Result AppConfig ConfigError
  from_raw raw =
      if is_empty raw.caller_keys
      then err no_caller_keys
      else elim (sha256_of x.hashing (policy_value raw.policy)) [
        | err e ↦ err (hash_error e)
        | ok config_hash ↦ elim (compile raw.policy) [
          | err e ↦ err (policy_error e)
          | ok policy ↦ ok (record {
            anthropic_api_key = raw.anthropic_api_key;
            openai_api_key = raw.openai_api_key;
            caller_keys = raw.caller_keys;
            policy = policy;
            max_body_bytes = raw.max_body_bytes;
            concurrency_limit = raw.concurrency_limit;
            receipt_ring_buffer_size = raw.receipt_ring_buffer_size;
            config_hash = config_hash;
          })
        ]
      ]

  -- `read` is the file system, `parse` is `serde_json::from_str` at `RawConfig`.
  load_from_file :
      (Str → Result Str Str) → (Str → Result RawConfig Str) → Str → Result AppConfig ConfigError
  unfolding from_raw
  load_from_file read parse path = elim (read path) [
    | err e ↦ err (read_error path e)
    | ok contents ↦ elim (parse contents) [ err e ↦ err (parse_error e) | ok raw ↦ from_raw raw ]
  ]

  -- `env` is `std::env::var(..).ok()`.
  module _ (env : Str → Option Str) where
    nonempty_env : Str → Option Str
    nonempty_env name = elim (env name) [
      | none ↦ none
      | some v ↦ if not (is_empty (trim v)) then some v else none
    ]

    abbrev nonempty : List Str → List Str
    nonempty [] = []
    nonempty (s ∷ ss) = let rest = nonempty ss in if not (is_empty s) then s ∷ rest else rest

    env_caller_keys : List Str
    env_caller_keys =
        unwrap_or []
          (map_option (λ v. nonempty (map trim (split b',' v))) (env (lit "SEKISHO_CALLER_KEYS")))

    abbrev allow_all : PolicyDocument
    allow_all = record {
      rules =
          record {
            name = lit "dev-allow-all";
            action = allow;
            enabled = true;
            caller_keys = none;
            allowed_models = none;
            max_tokens = none;
            max_request_bytes = none;
          }
          ∷ [];
    }

    -- The configuration that `load_from_dev_env` puts together.
    abbrev pub env_raw : PolicyDocument → RawConfig
    unfolding nonempty_env env_caller_keys
    env_raw policy = record {
      anthropic_api_key = nonempty_env (lit "SEKISHO_ANTHROPIC_API_KEY");
      openai_api_key = nonempty_env (lit "SEKISHO_OPENAI_API_KEY");
      caller_keys = env_caller_keys;
      policy = policy;
      max_body_bytes = default_max_body_bytes;
      concurrency_limit = default_concurrency_limit;
      receipt_ring_buffer_size = default_ring_buffer_size;
    }

    -- `parse_policy` is `serde_json::from_str` at `PolicyDocument`.
    module _ (parse_policy : Str → Result PolicyDocument Str) where
      env_policy : Option Str → Result PolicyDocument Str
      env_policy none = ok allow_all
      env_policy (some json) = parse_policy json

      load_from_dev_env : Result AppConfig ConfigError
      unfolding from_raw nonempty_env env_caller_keys env_policy
      load_from_dev_env = elim (env_policy (env (lit "SEKISHO_POLICY_JSON"))) [
        | err e ↦ err (parse_error e)
        | ok policy ↦ from_raw (env_raw policy)
      ]

      pub load_from_env :
          (Str → Result Str Str) → (Str → Result RawConfig Str) → Result AppConfig ConfigError
      unfolding load_from_file load_from_dev_env
      load_from_env read parse = elim (env (lit "SEKISHO_CONFIG")) [
        | some path ↦ load_from_file read parse path
        | none ↦ load_from_dev_env
      ]
