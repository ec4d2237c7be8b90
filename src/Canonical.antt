-- ===== src/Canonical.antt =====
-- canonical.rs: the schema that both client surfaces map into, and the receipt outcomes.
pub mod Serialize
mod Runs
use sekisho.Base.{ℕ, Bool, List, Option}
use sekisho.Text.{Str}
use sekisho.Json.{Value}

pub data CanonicalRole : Type 0 where
  system user assistant tool : CanonicalRole

pub data CanonicalBlock : Type 0 where
  text : (text : Str) → CanonicalBlock
  tool_use : (id name : Str) (input : Value) → CanonicalBlock
  tool_result : (tool_use_id content : Str) (is_error : Bool) → CanonicalBlock
  opaque : (kind descriptor : Str) → CanonicalBlock

pub record CanonicalMessage : Type 0 where
  pub role : CanonicalRole
  pub content : List CanonicalBlock

pub record CanonicalToolDef : Type 0 where
  pub name : Str
  pub description : Option Str
  pub input_schema : Value

-- `temperature` is the bits of an `f64`.
pub record CanonicalRequest : Type 0 where
  pub model : Str
  pub system : Option Str
  pub messages : List CanonicalMessage
  pub tools : List CanonicalToolDef
  pub tool_choice : Option Value
  pub max_tokens : Option ℕ
  pub temperature : Option ℕ

pub record CanonicalUsage : Type 0 where
  pub input_tokens : ℕ
  pub cache_creation_tokens : ℕ
  pub cache_read_tokens : ℕ
  pub output_tokens : ℕ

pub record CanonicalResponse : Type 0 where
  pub model : Str
  pub content : List CanonicalBlock
  pub stop_reason : Str
  pub usage : CanonicalUsage

pub record ProviderMeta : Type 0 where
  pub stop_reason : Str
  pub service_tier : Option Str
  pub inference_geo : Option Str

-- `BTreeMap<String, String>` as its entries, sorted by name.
abbrev pub CanonicalHeaders : Type 0
CanonicalHeaders = List (Str × Str)

pub data Outcome : Type 0 where
  success refusal upstream_error policy_denied : Outcome

abbrev pub as_u8 : Outcome → ℕ
as_u8 success = 0
as_u8 refusal = 1
as_u8 upstream_error = 2
as_u8 policy_denied = 3
