-- ===== src/Move/Receipt.antt =====
-- move/sources/receipt.move: the check of a signed receipt on chain.
pub mod Accepted
pub mod Parity
pub mod Verified
use sekisho.Base.{ℕ, Bool, not, ◌++◌, Result, ok, ◌>>=◌}
use sekisho.Text.{Str, Bytes}
use sekisho.Move.{Abort, invalid_signature, revoked_gateway, assert, TxContext}
use sekisho.Move.Bcs.{u8, u64, u256, vector_u8, string}
use sekisho.Move.Checkpoint.{Checkpoint, Gateway, is_revoked}

abbrev pub receipt_intent : ℕ
receipt_intent = 0

pub record Receipt : Type 0 where
  pub receipt_id : Bytes
  pub config_hash : Bytes
  pub provider : ℕ
  pub endpoint_host : Str
  pub tls_cert_sha256 : Bytes
  pub request_blob : ℕ
  pub upstream_request_blob : ℕ
  pub upstream_headers_hash : Bytes
  pub model_id : Str
  pub provider_request_id : Str
  pub response_blob : ℕ
  pub provider_meta_hash : Bytes
  pub input_tokens : ℕ
  pub cache_creation_tokens : ℕ
  pub cache_read_tokens : ℕ
  pub output_tokens : ℕ
  pub outcome : ℕ

pub record IntentMessage (P : Type 0) : Type 0 where
  pub intent : ℕ
  pub timestamp_ms : ℕ
  pub payload : P

pub record VerifiedReceipt : Type 0 where
  pub receipt_id : Bytes
  pub config_hash : Bytes
  pub provider : ℕ
  pub endpoint_host : Str
  pub tls_cert_sha256 : Bytes
  pub request_blob : ℕ
  pub upstream_request_blob : ℕ
  pub upstream_headers_hash : Bytes
  pub model_id : Str
  pub provider_request_id : Str
  pub response_blob : ℕ
  pub provider_meta_hash : Bytes
  pub input_tokens : ℕ
  pub cache_creation_tokens : ℕ
  pub cache_read_tokens : ℕ
  pub output_tokens : ℕ
  pub outcome : ℕ

pub record ReceiptVerified : Type 0 where
  pub gateway : Bytes
  pub operator : Bytes
  pub verifier : Bytes
  pub pcr_version : ℕ
  pub receipt_id : Bytes
  pub config_hash : Bytes
  pub provider : ℕ
  pub endpoint_host : Str
  pub tls_cert_sha256 : Bytes
  pub request_blob : ℕ
  pub upstream_request_blob : ℕ
  pub upstream_headers_hash : Bytes
  pub model_id : Str
  pub provider_request_id : Str
  pub response_blob : ℕ
  pub provider_meta_hash : Bytes
  pub input_tokens : ℕ
  pub cache_creation_tokens : ℕ
  pub cache_read_tokens : ℕ
  pub output_tokens : ℕ
  pub outcome : ℕ
  pub timestamp_ms : ℕ
  pub verified_at_ms : ℕ

unfoldable pub new_receipt :
    Bytes
    → Bytes
    → ℕ
    → Str
    → Bytes
    → ℕ
    → ℕ
    → Bytes
    → Str
    → Str
    → ℕ
    → Bytes
    → ℕ
    → ℕ
    → ℕ
    → ℕ
    → ℕ
    → Receipt
new_receipt receipt_id config_hash provider endpoint_host tls_cert_sha256 request_blob
      upstream_request_blob upstream_headers_hash model_id provider_request_id response_blob
      provider_meta_hash input_tokens cache_creation_tokens cache_read_tokens output_tokens
      outcome =
    record {
      receipt_id = receipt_id;
      config_hash = config_hash;
      provider = provider;
      endpoint_host = endpoint_host;
      tls_cert_sha256 = tls_cert_sha256;
      request_blob = request_blob;
      upstream_request_blob = upstream_request_blob;
      upstream_headers_hash = upstream_headers_hash;
      model_id = model_id;
      provider_request_id = provider_request_id;
      response_blob = response_blob;
      provider_meta_hash = provider_meta_hash;
      input_tokens = input_tokens;
      cache_creation_tokens = cache_creation_tokens;
      cache_read_tokens = cache_read_tokens;
      output_tokens = output_tokens;
      outcome = outcome;
    }

-- `bcs::to_bytes` of a struct: its fields in their order.
unfoldable pub receipt_bytes : Receipt → Bytes
receipt_bytes r =
    vector_u8 r.receipt_id
    ++ (vector_u8 r.config_hash
        ++ (u8 r.provider
            ++ (string r.endpoint_host
                ++ (vector_u8 r.tls_cert_sha256
                    ++ (u256 r.request_blob
                        ++ (u256 r.upstream_request_blob
                            ++ (vector_u8 r.upstream_headers_hash
                                ++ (string r.model_id
                                    ++ (string r.provider_request_id
                                        ++ (u256 r.response_blob
                                            ++ (vector_u8 r.provider_meta_hash
                                                ++ (u64 r.input_tokens
                                                    ++ (u64 r.cache_creation_tokens
                                                        ++ (u64 r.cache_read_tokens
                                                            ++ (u64 r.output_tokens
                                                            ++ u8 r.outcome)))))))))))))))

unfoldable pub to_bytes : IntentMessage Receipt → Bytes
unfolding receipt_bytes
to_bytes message = u8 message.intent ++ (u64 message.timestamp_ms ++ receipt_bytes message.payload)

abbrev pub intent_message : ℕ → Receipt → IntentMessage Receipt
intent_message timestamp_ms receipt = record {
  intent = receipt_intent;
  timestamp_ms = timestamp_ms;
  payload = receipt;
}

-- The witness that `verify` returns.
unfoldable pub verified_receipt : Receipt → VerifiedReceipt
verified_receipt r = record {
  receipt_id = r.receipt_id;
  config_hash = r.config_hash;
  provider = r.provider;
  endpoint_host = r.endpoint_host;
  tls_cert_sha256 = r.tls_cert_sha256;
  request_blob = r.request_blob;
  upstream_request_blob = r.upstream_request_blob;
  upstream_headers_hash = r.upstream_headers_hash;
  model_id = r.model_id;
  provider_request_id = r.provider_request_id;
  response_blob = r.response_blob;
  provider_meta_hash = r.provider_meta_hash;
  input_tokens = r.input_tokens;
  cache_creation_tokens = r.cache_creation_tokens;
  cache_read_tokens = r.cache_read_tokens;
  output_tokens = r.output_tokens;
  outcome = r.outcome;
}

-- The event that `verify` emits.
unfoldable pub receipt_verified : Gateway → ℕ → ℕ → Receipt → TxContext → ReceiptVerified
receipt_verified gateway clock timestamp_ms r ctx = record {
  gateway = gateway.id;
  operator = gateway.operator;
  verifier = ctx.sender;
  pcr_version = gateway.pcr_version;
  receipt_id = r.receipt_id;
  config_hash = r.config_hash;
  provider = r.provider;
  endpoint_host = r.endpoint_host;
  tls_cert_sha256 = r.tls_cert_sha256;
  request_blob = r.request_blob;
  upstream_request_blob = r.upstream_request_blob;
  upstream_headers_hash = r.upstream_headers_hash;
  model_id = r.model_id;
  provider_request_id = r.provider_request_id;
  response_blob = r.response_blob;
  provider_meta_hash = r.provider_meta_hash;
  input_tokens = r.input_tokens;
  cache_creation_tokens = r.cache_creation_tokens;
  cache_read_tokens = r.cache_read_tokens;
  output_tokens = r.output_tokens;
  outcome = r.outcome;
  timestamp_ms = timestamp_ms;
  verified_at_ms = clock;
}

-- `ed25519_verify` of `sui::ed25519` takes a signature, a key and a message; `clock` is the time of
-- the chain. The event is emitted exactly if nothing aborts, and stands in the result.
unfoldable pub verify :
    (Bytes → Bytes → Bytes → Bool)
    → Gateway
    → Checkpoint
    → ℕ
    → ℕ
    → Receipt
    → Bytes
    → TxContext
    → Result (VerifiedReceipt × ReceiptVerified) Abort
unfolding is_revoked to_bytes verified_receipt receipt_verified
verify ed25519_verify gateway checkpoint clock timestamp_ms receipt sig ctx = do
  revoked ← is_revoked checkpoint gateway.pcr_version
  _ ← assert (not revoked) revoked_gateway
  let signed_bytes = to_bytes (intent_message timestamp_ms receipt)
  _ ← assert (ed25519_verify sig gateway.pk signed_bytes) invalid_signature
  ok (verified_receipt receipt, receipt_verified gateway clock timestamp_ms receipt ctx)
