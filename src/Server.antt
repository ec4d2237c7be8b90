-- ===== src/Server.antt =====
-- server.rs: the state of the gateway, and how receipts are made, signed and stored.
pub mod Receipts
pub mod Surfaces
pub mod Upstream
pub mod Handlers
pub mod Routes
use sekisho.Base.{ℕ, ◌-◌, ◌^◌, true, Option, none, some, if◌then◌else◌, ltb}
use sekisho.Text.{Str, Bytes, lit}
use sekisho.Json.{Value}
use sekisho.Canonical.{Outcome}
use sekisho.Config.{AppConfig}
use sekisho.Receipt.{Receipt}
use sekisho.Receipt.Stored.{StoredReceipt, ReceiptStore, new_store, get}

-- `provider_id`.
abbrev pub anthropic_id : ℕ
anthropic_id = 0

abbrev pub openai_compatible_id : ℕ
openai_compatible_id = 1

-- `Inner`, with the permits left in its semaphore. The HTTP client and the signing context are
-- parameters.
pub record AppState : Type 0 where
  pub config : AppConfig
  pub permits : ℕ
  pub receipts : ReceiptStore
  pub anthropic_base_url : Str
  pub openai_base_url : Str

-- The state that `build_router` makes.
unfoldable pub initial_state : AppConfig → Str → Str → AppState
unfolding new_store
initial_state config anthropic_base_url openai_base_url = record {
  config = config;
  permits = config.concurrency_limit;
  receipts = new_store config.receipt_ring_buffer_size;
  anthropic_base_url = anthropic_base_url;
  openai_base_url = openai_base_url;
}

-- The body of an answer: an `ErrorBody`, a JSON document, a stream that is still to be polled, or
-- what axum writes where an extractor or the router turns a request away.
pub data Body : Type 0 where
  error_body : (code message : Str) → Body
  json : Value → Body
  receipt_json : StoredReceipt → Body
  event_stream : Body
  rejection : Body

-- `receipt_header` is `x-receipt-id`.
pub record Response : Type 0 where
  pub status : ℕ
  pub body : Body
  pub receipt_header : Option Str

pub error_response : ℕ → Str → Str → Response
error_response status code message = record {
  status = status;
  body = error_body code message;
  receipt_header = none;
}

-- The clock reads no time before the epoch, and times that do not fit 64 bits as the greatest.
pub current_timestamp_ms : Option ℕ → ℕ
current_timestamp_ms none = 0
current_timestamp_ms (some ms) = if ltb ms (2 ^ 64) then ms else 2 ^ 64 - 1

pub record CallContext : Type 0 where
  pub receipt_id : Bytes
  pub provider : ℕ
  pub endpoint_host : Str
  pub request_blob : Bytes
  pub upstream_request_blob : Bytes
  pub upstream_headers_hash : Bytes
  pub tls_cert_sha256 : Bytes
  pub provider_request_id : Str

pub record ReceiptParts : Type 0 where
  pub receipt_id : Bytes
  pub provider : ℕ
  pub endpoint_host : Str
  pub tls_cert_sha256 : Bytes
  pub request_blob : Bytes
  pub upstream_request_blob : Bytes
  pub upstream_headers_hash : Bytes
  pub model_id : Str
  pub provider_request_id : Str
  pub response_blob : Bytes
  pub provider_meta_hash : Bytes
  pub input_tokens : ℕ
  pub cache_creation_tokens : ℕ
  pub cache_read_tokens : ℕ
  pub output_tokens : ℕ
  pub outcome : Outcome

pub get_receipt : AppState → Str → Response
get_receipt state id = elim (get state.receipts id) [
  | some receipt ↦ record { status = 200; body = receipt_json receipt; receipt_header = none }
  | none ↦ error_response 404 (lit "not_found") (lit "no receipt with that id")
]
