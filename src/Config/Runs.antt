-- ===== src/Config/Runs.antt =====
-- Configuration files, one of them with an empty provider key and one with two rules.
use sekisho.Base.{
  true, [], ◌∷◌, Option, none, some, Result, ok, err, same, if◌then◌else◌, ◌≡◌, refl, replicate,
  ok_value, any, find, map_option,
}
use sekisho.Text.{
  Str, Bytes, lit, split, onto_first, trim, trim_start, trim_end, keep_before, is_whitespace,
}
use sekisho.Policy.{
  PolicyDocument, EvaluationRequest, deny, allow, compile, compile_rules, compile_rule, push_rule,
}
use sekisho.Canonical.Serialize.{sha256_of}
use sekisho.Config.{
  RawConfig, AppConfig, from_raw, policy_value, load_from_env, load_from_dev_env, env_policy,
  env_caller_keys, nonempty_env,
}
use sekisho.Config.Hash.{evaluate-from_raw}
use sekisho.Policy.Compile.{denies, admits}
use sekisho.Policy.Evaluate.{evaluate}
use sekisho.Config.Errors.{is_faulty, configured, load_from_env_fails}
use sekisho.Policy.Compile.{is_err}
use sekisho.Fixtures.{external}

abbrev raw : RawConfig
raw = record {
  anthropic_api_key = some (lit "");
  openai_api_key = none;
  caller_keys = lit "key" ∷ [];
  policy = record { rules = [] };
  max_body_bytes = 1048576;
  concurrency_limit = 16;
  receipt_ring_buffer_size = 4096;
}

abbrev loaded : AppConfig
loaded = record {
  anthropic_api_key = some (lit "");
  openai_api_key = none;
  caller_keys = lit "key" ∷ [];
  policy = record { deny_rules = []; allow_rules = [] };
  max_body_bytes = 1048576;
  concurrency_limit = 16;
  receipt_ring_buffer_size = 4096;
  config_hash = replicate 32 7;
}

loaded_run : from_raw external raw ≡ ok loaded
unfolding from_raw compile compile_rules sha256_of
loaded_run = refl

abbrev rotated : RawConfig
rotated = record raw { caller_keys = lit "new key" ∷ [] }

rotated_run : from_raw external rotated ≡ ok (record loaded { caller_keys = lit "new key" ∷ [] })
unfolding from_raw compile compile_rules sha256_of
rotated_run = refl

-- A file with a rule that denies a caller, and one for the rest.
abbrev ruled : RawConfig
ruled = record raw {
  policy = record {
    rules =
        record {
          name = lit "banned";
          action = deny;
          enabled = true;
          caller_keys = some (lit "old key" ∷ []);
          allowed_models = none;
          max_tokens = none;
          max_request_bytes = none;
        }
        ∷ record {
          name = lit "rest";
          action = allow;
          enabled = true;
          caller_keys = none;
          allowed_models = none;
          max_tokens = some 1000;
          max_request_bytes = none;
        }
        ∷ [];
  };
}

abbrev ruled_loaded : AppConfig
ruled_loaded = record loaded {
  policy = record {
    deny_rules =
        record {
          name = lit "banned";
          caller_keys = some (lit "old key" ∷ []);
          model_matcher = none;
          max_tokens = none;
          max_request_bytes = none;
        }
        ∷ [];
    allow_rules =
        record {
          name = lit "rest";
          caller_keys = none;
          model_matcher = none;
          max_tokens = some 1000;
          max_request_bytes = none;
        }
        ∷ [];
  };
}

ruled_run : from_raw external ruled ≡ ok ruled_loaded
unfolding from_raw compile compile_rules compile_rule push_rule sha256_of trim trim_start trim_end
    keep_before is_whitespace
ruled_run = refl

abbrev asked : EvaluationRequest
asked = record {
  caller_key = lit "key";
  model = lit "gpt-4o";
  max_tokens = some 500;
  request_bytes = 100;
}

evaluate-from_raw_example :
    (sha256_of external.hashing (policy_value ruled.policy) ≡ ok ruled_loaded.config_hash)
    × (ok_value (evaluate external.debug ruled_loaded.policy asked) ≡ (
        if any (denies asked) ruled.policy.rules
        then none
        else map_option (λ r. r.name) (find (admits asked) ruled.policy.rules)))
evaluate-from_raw_example = evaluate-from_raw external ruled ruled_loaded asked ruled_run

-- An environment with caller keys and nothing else.
abbrev pub env : Str → Option Str
env name = if same name (lit "SEKISHO_CALLER_KEYS") then some (lit "key,, other") else none

abbrev pub no_policy : Str → Result PolicyDocument Str
no_policy _ = err (lit "no policy")

abbrev pub no_file : Str → Result Str Str
no_file _ = err (lit "no file")

abbrev pub no_config : Str → Result RawConfig Str
no_config _ = err (lit "no configuration")

abbrev pub from_env : AppConfig
from_env = record {
  anthropic_api_key = none;
  openai_api_key = none;
  caller_keys = lit "key" ∷ lit "other" ∷ [];
  policy = record {
    deny_rules = [];
    allow_rules =
        record {
          name = lit "dev-allow-all";
          caller_keys = none;
          model_matcher = none;
          max_tokens = none;
          max_request_bytes = none;
        }
        ∷ [];
  };
  max_body_bytes = 1048576;
  concurrency_limit = 16;
  receipt_ring_buffer_size = 4096;
  config_hash = replicate 32 7;
}

pub from_env_run : load_from_env external env no_policy no_file no_config ≡ ok from_env
unfolding load_from_env load_from_dev_env env_policy env_caller_keys nonempty_env from_raw compile
    compile_rules compile_rule push_rule sha256_of split onto_first trim trim_start trim_end
    keep_before is_whitespace
from_env_run = refl

hash_total :
    (policy : PolicyDocument)
    → (hash : Bytes) × (sha256_of external.hashing (policy_value policy) ≡ ok hash)
unfolding sha256_of
hash_total policy = (replicate 32 7, refl)

load_from_env_fails_example :
    is_err (load_from_env external env no_policy no_file no_config)
    ≡ elim (configured external hash_total env no_policy no_file no_config) [
      | none ↦ true
      | some raw ↦ is_faulty raw
    ]
load_from_env_fails_example =
    load_from_env_fails external hash_total env no_policy no_file no_config
