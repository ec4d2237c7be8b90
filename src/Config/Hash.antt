-- ===== src/Config/Hash.antt =====
-- What a loaded configuration decides by, and what `config_hash` covers.
use sekisho.Base.{
  ap, ◌≡◌, ok, none, ok_value, is_empty, false, any, find, map_option, if◌then◌else◌, arith,
}
use sekisho.Canonical.Serialize.{sha256_of}
use sekisho.Policy.{EvaluationRequest, compile}
use sekisho.Policy.Compile.{denies, admits}
use sekisho.Policy.Evaluate.{evaluate}
use sekisho.Policy.Evaluate.Verdict.{evaluate_verdict}
use sekisho.Config.{RawConfig, AppConfig, policy_value, from_raw}
use sekisho.External.{External}

pub from_raw_sound :
    (x : External) (raw : RawConfig) (c : AppConfig)
    → from_raw x raw ≡ ok c
    → (is_empty c.caller_keys ≡ false)
      × (compile raw.policy ≡ ok c.policy)
      × (sha256_of x.hashing (policy_value raw.policy) ≡ ok c.config_hash)
      × (c.anthropic_api_key ≡ raw.anthropic_api_key)
      × (c.openai_api_key ≡ raw.openai_api_key)
unfolding from_raw
from_raw_sound x raw c h = ground arith

-- A loaded configuration decides by the very document that `config_hash` is the hash of: it answers a
-- request with the name of the first rule of the document that admits it, and denies it if a rule of
-- the document denies it or none admits it.
pub evaluate-from_raw :
    (x : External) (raw : RawConfig) (c : AppConfig) (request : EvaluationRequest)
    → from_raw x raw ≡ ok c
    → (sha256_of x.hashing (policy_value raw.policy) ≡ ok c.config_hash)
      × (ok_value (evaluate x.debug c.policy request) ≡ (
          if any (denies request) raw.policy.rules
          then none
          else map_option (λ r. r.name) (find (admits request) raw.policy.rules)))
evaluate-from_raw x raw c request h =
    let (_, compiled, hashed, _, _) = from_raw_sound x raw c h in
    (hashed, evaluate_verdict x.debug raw.policy request compiled)

-- `config_hash` depends on the policy document alone: two configurations with one policy have one
-- hash, whatever their keys and limits are.
config_hash_policy_only :
    (x : External) (raw raw' : RawConfig) (c c' : AppConfig)
    → raw.policy ≡ raw'.policy
    → from_raw x raw ≡ ok c
    → from_raw x raw' ≡ ok c'
    → c.config_hash ≡ c'.config_hash
config_hash_policy_only x raw raw' c c' e h h' = cc (
  (from_raw_sound x raw c h).2,
  (from_raw_sound x raw' c' h').2,
  ap (λ p. sha256_of x.hashing (policy_value p)) e,
)
