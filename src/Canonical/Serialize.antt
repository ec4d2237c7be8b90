-- ===== src/Canonical/Serialize.antt =====
-- canonical.rs: what `#[derive(Serialize)]` with its attributes makes of the canonical types, and
-- the commitments to their canonical bytes.
pub mod Readers
pub mod Responses
pub mod Commits
use sekisho.Base.{
  ℕ, ◌/◌, ◌%◌, ◌^◌, true, false, not, List, [], ◌∷◌, ◌++◌, Option, none, some, ◌==◌, if◌then◌else◌,
  map, replicate, Result, ok, err, ◌>>=◌,
}
use sekisho.Text.{Str, Bytes, lit}
use sekisho.Json.{
  Value, Fields, null, bool, number, string, array, object, pos_int, float, of_list, object_of, end,
  insert_field,
}
use sekisho.Canonical.{
  CanonicalRole, system, user, assistant, tool, CanonicalBlock, text, tool_use, tool_result, opaque,
  CanonicalMessage, CanonicalToolDef, CanonicalRequest, CanonicalUsage, CanonicalResponse,
  ProviderMeta, CanonicalHeaders,
}

abbrev role_name : CanonicalRole → Str
role_name system = lit "system"
role_name user = lit "user"
role_name assistant = lit "assistant"
role_name tool = lit "tool"

-- A field that is left out where its value is absent.
abbrev optional : Str → Option Value → List (Str × Value)
optional key none = []
optional key (some v) = (key, v) ∷ []

abbrev text_value : Option Str → Option Value
text_value none = none
text_value (some s) = some (string s)

-- An `f64` that is no number has no JSON form and reads `null`.
abbrev float_value : ℕ → Value
float_value bits = if bits / 2 ^ 52 % 2048 == 2047 then null else number (float bits)

abbrev u64_value : Option ℕ → Option Value
u64_value none = none
u64_value (some n) = some (number (pos_int n))

abbrev temperature_value : Option ℕ → Option Value
temperature_value none = none
temperature_value (some bits) = some (float_value bits)

pub block_value : CanonicalBlock → Value
block_value (text t) =
    object (object_of ((lit "type", string (lit "text")) ∷ (lit "text", string t) ∷ []))
block_value (tool_use id name input) = object (
    object_of (
      (lit "type", string (lit "tool_use"))
      ∷ (lit "id", string id)
      ∷ (lit "name", string name)
      ∷ (lit "input", input)
      ∷ []))
block_value (tool_result tool_use_id content is_error) = object (
    object_of (
      (lit "type", string (lit "tool_result"))
      ∷ (lit "tool_use_id", string tool_use_id)
      ∷ (lit "content", string content)
      ∷ optional (lit "is_error") (if not is_error then none else some (bool is_error))))
block_value (opaque kind descriptor) = object (
    object_of (
      (lit "type", string (lit "opaque"))
      ∷ (lit "kind", string kind)
      ∷ (lit "descriptor", string descriptor)
      ∷ []))

abbrev blocks_value : List CanonicalBlock → Value
blocks_value blocks = array (of_list (map block_value blocks))

pub message_value : CanonicalMessage → Value
unfolding block_value
message_value m = object (
    object_of
      ((lit "role", string (role_name m.role)) ∷ (lit "content", blocks_value m.content) ∷ []))

pub tool_value : CanonicalToolDef → Value
tool_value t = object (
    object_of (
      (lit "name", string t.name) ∷ optional (lit "description") (text_value t.description)
      ++ ((lit "input_schema", t.input_schema) ∷ [])))

-- `skip_serializing_if = "Vec::is_empty"`.
abbrev tools_value : List CanonicalToolDef → Option Value
unfolding tool_value
tools_value [] = none
tools_value (t ∷ ts) = some (array (of_list (map tool_value (t ∷ ts))))

pub request_value : CanonicalRequest → Value
unfolding message_value tool_value
request_value r = object (
    object_of (
      (lit "model", string r.model) ∷ optional (lit "system") (text_value r.system)
      ++ ((lit "messages", array (of_list (map message_value r.messages)))
            ∷ optional (lit "tools") (tools_value r.tools)
          ++ (optional (lit "tool_choice") r.tool_choice
              ++ (optional (lit "max_tokens") (u64_value r.max_tokens)
                  ++ optional (lit "temperature") (temperature_value r.temperature))))))

usage_value : CanonicalUsage → Value
usage_value u = object (
    object_of (
      (lit "input_tokens", number (pos_int u.input_tokens))
      ∷ (lit "cache_creation_tokens", number (pos_int u.cache_creation_tokens))
      ∷ (lit "cache_read_tokens", number (pos_int u.cache_read_tokens))
      ∷ (lit "output_tokens", number (pos_int u.output_tokens))
      ∷ []))

pub response_value : CanonicalResponse → Value
unfolding block_value usage_value
response_value r = object (
    object_of (
      (lit "model", string r.model)
      ∷ (lit "content", blocks_value r.content)
      ∷ (lit "stop_reason", string r.stop_reason)
      ∷ (lit "usage", usage_value r.usage)
      ∷ []))

pub meta_value : ProviderMeta → Value
meta_value m = object (
    object_of (
      (lit "stop_reason", string m.stop_reason)
        ∷ optional (lit "service_tier") (text_value m.service_tier)
      ++ optional (lit "inference_geo") (text_value m.inference_geo)))

header_fields : CanonicalHeaders → Fields
header_fields [] = end
header_fields ((name, value) ∷ hs) = insert_field name (string value) (header_fields hs)

pub headers_value : CanonicalHeaders → Value
unfolding header_fields
headers_value hs = object (header_fields hs)

-- The crates `serde_json` and `sha2`, and the encoder of `walrus-core` at 1000 shards.
pub record Hashing : Type 0 where
  pub to_vec : Value → Result Bytes Str
  pub sha256 : Bytes → Bytes
  pub compute_blob_id : Bytes → Result Bytes Str

abbrev pub zero32 : Bytes
zero32 = replicate 32 0

module _ (x : Hashing) where
  open x use {to_vec, sha256, compute_blob_id}

  -- `value` has been through `serde_json::to_value`.
  abbrev pub canonical_bytes : Value → Result Bytes Str
  canonical_bytes value = to_vec value

  unfoldable pub sha256_of : Value → Result Bytes Str
  sha256_of value = do bytes ← canonical_bytes value; ok (sha256 bytes)

  pub compute_blob_id_bytes : Bytes → Bytes
  compute_blob_id_bytes bytes = elim (compute_blob_id bytes) [ ok id ↦ id | err _ ↦ zero32 ]

  unfoldable pub blob_id_of : Value → Result Bytes Str
  unfolding compute_blob_id_bytes
  blob_id_of value = do bytes ← canonical_bytes value; ok (compute_blob_id_bytes bytes)
