-- ===== src/Providers/Anthropic/Wire.antt =====
-- providers/anthropic.rs: the wire types of the Anthropic adapter, and its constants.
use sekisho.Base.{ℕ, List, Option, Result}
use sekisho.Text.{Str, lit}
use sekisho.Json.{Value}

abbrev pub base_url : Str
base_url = lit "https://api.anthropic.com"

abbrev pub host : Str
host = lit "api.anthropic.com"

abbrev pub anthropic_version : Str
anthropic_version = lit "2023-06-01"

abbrev pub request_id_header : Str
request_id_header = lit "request-id"

pub record WireMessage : Type 0 where
  pub role : Str
  pub content : Value

pub record WireTool : Type 0 where
  pub name : Str
  pub description : Option Str
  pub input_schema : Option Value

pub record WireRequestFields : Type 0 where
  pub model : Str
  pub max_tokens : Option ℕ
  pub system : Option Value
  pub messages : List WireMessage
  pub tools : Option (List WireTool)
  pub tool_choice : Option Value
  pub temperature : Option ℕ

pub record WireUsage : Type 0 where
  pub input_tokens : ℕ
  pub output_tokens : ℕ
  pub cache_creation_input_tokens : ℕ
  pub cache_read_input_tokens : ℕ

pub record WireResponse : Type 0 where
  pub model : Str
  pub content : List Value
  pub stop_reason : Option Str
  pub usage : WireUsage

-- `serde_json::from_value` at the two types that the adapter reads, with the text of its errors.
pub record Decoders : Type 0 where
  pub request_fields : Value → Result WireRequestFields Str
  pub response : Value → Result WireResponse Str
