-- ===== src/Providers/OpenAi/Wire.antt =====
-- providers/openai.rs: the wire types of the OpenAI-compatible adapter, and its constants.
use sekisho.Base.{ℕ, List, Option, Result}
use sekisho.Text.{Str, lit}
use sekisho.Json.{Value}

abbrev pub base_url : Str
base_url = lit "https://api.openai.com"

abbrev pub host : Str
host = lit "api.openai.com"

abbrev pub request_id_header : Str
request_id_header = lit "x-request-id"

pub record WireFunctionCall : Type 0 where
  pub name : Str
  pub arguments : Str

pub record WireToolCall : Type 0 where
  pub id : Str
  pub function : WireFunctionCall

pub record WireMessage : Type 0 where
  pub role : Str
  pub content : Option Value
  pub tool_calls : Option (List WireToolCall)
  pub tool_call_id : Option Str

pub record WireFunctionDef : Type 0 where
  pub name : Str
  pub description : Option Str
  pub parameters : Option Value

pub record WireTool : Type 0 where
  pub function : WireFunctionDef

pub record WireRequestFields : Type 0 where
  pub model : Str
  pub messages : List WireMessage
  pub max_tokens : Option ℕ
  pub temperature : Option ℕ
  pub tools : Option (List WireTool)
  pub tool_choice : Option Value

pub record WirePromptTokensDetails : Type 0 where
  pub cached_tokens : ℕ

pub record WireUsage : Type 0 where
  pub prompt_tokens : ℕ
  pub completion_tokens : ℕ
  pub prompt_tokens_details : Option WirePromptTokensDetails

pub record WireResponseMessage : Type 0 where
  pub content : Option Value
  pub tool_calls : Option (List WireToolCall)

pub record WireChoice : Type 0 where
  pub message : WireResponseMessage
  pub finish_reason : Option Str

pub record WireResponse : Type 0 where
  pub model : Str
  pub choices : List WireChoice
  pub usage : WireUsage

-- `serde_json::from_value` at the three types that the adapter reads, with the text of its errors.
pub record Decoders : Type 0 where
  pub request_fields : Value → Result WireRequestFields Str
  pub response : Value → Result WireResponse Str
  pub usage : Value → Result WireUsage Str
