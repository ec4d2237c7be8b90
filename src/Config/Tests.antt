-- ===== src/Config/Tests.antt =====
-- config.rs: the tests beside the code that do not test serde, on the model.
use sekisho.Base.{Bool, true, false, ◌&&◌, [], ◌∷◌, none, some, Result, ok, err, same, ◌≡◌, refl}
use sekisho.Text.{lit}
use sekisho.Canonical.Serialize.{sha256_of}
use sekisho.Policy.{compile, compile_rules}
use sekisho.Config.{
  RawConfig, AppConfig, ConfigError, no_caller_keys, from_raw, default_max_body_bytes,
  default_concurrency_limit,
}
use sekisho.Receipt.Stored.{default_ring_buffer_size}
use sekisho.Fixtures.{external}

-- What serde reads from the JSON of that name.
abbrev minimal_json : RawConfig
minimal_json = record {
  anthropic_api_key = none;
  openai_api_key = none;
  caller_keys = lit "sk-test" ∷ [];
  policy = record { rules = [] };
  max_body_bytes = default_max_body_bytes;
  concurrency_limit = default_concurrency_limit;
  receipt_ring_buffer_size = default_ring_buffer_size;
}

abbrev same_hash : Result AppConfig ConfigError → Result AppConfig ConfigError → Bool
same_hash (ok a) (ok b) = same a.config_hash b.config_hash
same_hash _ _ = false

abbrev config_hash_covers_policy_only_not_secrets : Bool
unfolding from_raw
config_hash_covers_policy_only_not_secrets =
    same_hash
      (from_raw external (record minimal_json { anthropic_api_key = some (lit "secret-a") }))
      (from_raw external
        (record minimal_json { anthropic_api_key = some (lit "secret-b-totally-different") }))

abbrev has_no_caller_keys : Result AppConfig ConfigError → Bool
has_no_caller_keys (err no_caller_keys) = true
has_no_caller_keys _ = false

abbrev empty_caller_keys_is_rejected : Bool
unfolding from_raw
empty_caller_keys_is_rejected =
    has_no_caller_keys (from_raw external (record minimal_json { caller_keys = [] }))

config_tests : (config_hash_covers_policy_only_not_secrets && empty_caller_keys_is_rejected) ≡ true
unfolding from_raw compile compile_rules sha256_of
config_tests = refl
