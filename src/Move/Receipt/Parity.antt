-- ===== src/Move/Receipt/Parity.antt =====
-- receipt.move and receipt.rs: the bytes that the contract checks are the bytes that the enclave
-- signs.
use sekisho.Base.{ℕ, ◌≡◌, sym, length}
use mathlib.Core.Path.{subst}
use sekisho.Text.{Bytes}
use sekisho.Receipt.{le_bytes, serialize_intent_message}
use sekisho.Receipt as Enclave
use sekisho.Receipt.Encoding.{message, serialize-message}
use sekisho.Move.Bcs.{le_value, AreBytes, le_bytes-le_value}
use sekisho.Move.Receipt.{Receipt, to_bytes, receipt_bytes, intent_message}

-- A receipt of the enclave as it is passed to `new_receipt`: a blob id is the number that its 32
-- bytes stand for, the lowest first.
unfoldable pub submitted : Enclave.Receipt → Receipt
submitted r = record {
  receipt_id = r.receipt_id;
  config_hash = r.config_hash;
  provider = r.provider;
  endpoint_host = r.endpoint_host;
  tls_cert_sha256 = r.tls_cert_sha256;
  request_blob = le_value r.request_blob;
  upstream_request_blob = le_value r.upstream_request_blob;
  upstream_headers_hash = r.upstream_headers_hash;
  model_id = r.model_id;
  provider_request_id = r.provider_request_id;
  response_blob = le_value r.response_blob;
  provider_meta_hash = r.provider_meta_hash;
  input_tokens = r.input_tokens;
  cache_creation_tokens = r.cache_creation_tokens;
  cache_read_tokens = r.cache_read_tokens;
  output_tokens = r.output_tokens;
  outcome = r.outcome;
}

-- `[u8; 32]`.
pub record IsBlobId (bytes : Bytes) : Type 0 where
  pub sized : length bytes ≡ 32
  pub in_range : AreBytes bytes

pub record HasBlobIds (r : Enclave.Receipt) : Type 0 where
  pub request_blob : IsBlobId r.request_blob
  pub upstream_request_blob : IsBlobId r.upstream_request_blob
  pub response_blob : IsBlobId r.response_blob

pub u256-le_value : (bytes : Bytes) → IsBlobId bytes → le_bytes 32 (le_value bytes) ≡ bytes
u256-le_value bytes h =
    subst (λ k. le_bytes k (le_value bytes) ≡ bytes) h.sized (le_bytes-le_value bytes h.in_range)

-- The contract serializes a receipt that is submitted, with its time, to exactly the bytes that the
-- enclave signs for it, if its three blob ids are 32 bytes each, as their type says.
pub to_bytes-submitted :
    (r : Enclave.Receipt) (timestamp_ms : ℕ)
    → HasBlobIds r
    → to_bytes (intent_message timestamp_ms (submitted r)) ≡ serialize_intent_message r timestamp_ms
unfolding to_bytes receipt_bytes submitted message
to_bytes-submitted r timestamp_ms h =
    rw
      (
        u256-le_value r.request_blob h.request_blob,
        u256-le_value r.upstream_request_blob h.upstream_request_blob,
        u256-le_value r.response_blob h.response_blob,
      )
      (sym (serialize-message r timestamp_ms))
