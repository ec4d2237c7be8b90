-- ===== src/Sdk/Check.antt =====
-- server.rs, receipt.ts and extension.ts together: a client checks a receipt that the gateway serves.
use sekisho.Base.{ℕ, ◌<◌, ◌≤◌, ◌^◌, true, some, ltb, ◌≡◌, refl, arith}
use sekisho.Text.{Str, Bytes}
use sekisho.Text.Hex.{hex}
use sekisho.Receipt as Enclave
use sekisho.Receipt.{serialize_intent_message}
use sekisho.Receipt.Stored.{StoredReceipt, stored_receipt}
use sekisho.Move.Bcs.{le_value, AreBytes}
use sekisho.Move.Receipt.{new_receipt}
use sekisho.Move.Receipt.Parity.{submitted, HasBlobIds, to_bytes-submitted}
use sekisho.Sdk.{
  Libraries, Receipt, key_bytes, read_record, serialize_receipt, verify_receipt,
  build_verify_transaction,
}
use sekisho.Sdk.Parity.{
  AreFaithful, contract_receipt, serialize_receipt-to_bytes, verify_receipt_lem,
}
use sekisho.Sdk.BlobId.{parse_blob_id-hex}

-- A number that JSON.parse reads without loss.
abbrev pub IsExact : ℕ → Type 0
IsExact n = n ≤ 2 ^ 53

-- What the types of a receipt's fields say, and counters that JavaScript can read.
pub record IsReadable (r : Enclave.Receipt) (timestamp_ms : ℕ) : Type 0 where
  pub receipt_id : AreBytes r.receipt_id
  pub config_hash : AreBytes r.config_hash
  pub tls_cert_sha256 : AreBytes r.tls_cert_sha256
  pub upstream_headers_hash : AreBytes r.upstream_headers_hash
  pub provider_meta_hash : AreBytes r.provider_meta_hash
  pub blobs : HasBlobIds r
  pub signed_at : IsExact timestamp_ms
  pub provider : r.provider < 256
  pub outcome : r.outcome < 4
  pub input_tokens : IsExact r.input_tokens
  pub cache_creation_tokens : IsExact r.cache_creation_tokens
  pub cache_read_tokens : IsExact r.cache_read_tokens
  pub output_tokens : IsExact r.output_tokens

-- The receipt that a client reads.
pub client_receipt : Enclave.Receipt → Receipt
client_receipt r = record {
  receipt_id = hex r.receipt_id;
  config_hash = hex r.config_hash;
  provider = r.provider;
  endpoint_host = r.endpoint_host;
  tls_cert_sha256 = hex r.tls_cert_sha256;
  request_blob = le_value r.request_blob;
  upstream_request_blob = le_value r.upstream_request_blob;
  upstream_headers_hash = hex r.upstream_headers_hash;
  model_id = r.model_id;
  provider_request_id = r.provider_request_id;
  response_blob = le_value r.response_blob;
  provider_meta_hash = hex r.provider_meta_hash;
  input_tokens = r.input_tokens;
  cache_creation_tokens = r.cache_creation_tokens;
  cache_read_tokens = r.cache_read_tokens;
  output_tokens = r.output_tokens;
  outcome = r.outcome;
}

module _ (hex_encode : Bytes → Str) (hex_lower : (bytes : Bytes) → hex_encode bytes ≡ hex bytes)
    (to_number : ℕ → ℕ) (exact : (n : ℕ) → IsExact n → to_number n ≡ n) where
  read_record-stored_receipt :
      (r : Enclave.Receipt) (timestamp_ms : ℕ) (signature : Bytes)
      → IsReadable r timestamp_ms
      → read_record to_number (stored_receipt hex_encode r timestamp_ms signature)
        ≡ some (client_receipt r)
  unfolding read_record stored_receipt client_receipt
  read_record-stored_receipt r timestamp_ms signature h =
      let known : ltb r.outcome 4 ≡ true = ground (arith, h.outcome) in
      rw
        (
          read_record,
          exact r.outcome (omega (arith, h.outcome)),
          known,
          hex_lower r.request_blob,
          hex_lower r.upstream_request_blob,
          hex_lower r.response_blob,
          hex_lower r.receipt_id,
          hex_lower r.config_hash,
          hex_lower r.tls_cert_sha256,
          hex_lower r.upstream_headers_hash,
          hex_lower r.provider_meta_hash,
          parse_blob_id-hex r.request_blob h.blobs.request_blob.sized h.blobs.request_blob.in_range,
          parse_blob_id-hex r.upstream_request_blob h.blobs.upstream_request_blob.sized
              h.blobs.upstream_request_blob.in_range,
          parse_blob_id-hex r.response_blob h.blobs.response_blob.sized
              h.blobs.response_blob.in_range,
          exact r.provider (omega (arith, h.provider)),
          exact r.input_tokens h.input_tokens,
          exact r.cache_creation_tokens h.cache_creation_tokens,
          exact r.cache_read_tokens h.cache_read_tokens,
          exact r.output_tokens h.output_tokens,
        )
        refl

contract_receipt-client_receipt :
    (l : Libraries) (r : Enclave.Receipt) (timestamp_ms : ℕ)
    → AreFaithful l
    → IsReadable r timestamp_ms
    → contract_receipt l (client_receipt r) ≡ submitted r
unfolding build_verify_transaction new_receipt client_receipt submitted
contract_receipt-client_receipt l r timestamp_ms f h =
    rw
      (
        f.from_hex r.receipt_id h.receipt_id,
        f.from_hex r.config_hash h.config_hash,
        f.from_hex r.tls_cert_sha256 h.tls_cert_sha256,
        f.from_hex r.upstream_headers_hash h.upstream_headers_hash,
        f.from_hex r.provider_meta_hash h.provider_meta_hash,
      )
      refl

serialize_receipt-client_receipt :
    (l : Libraries) (r : Enclave.Receipt) (timestamp_ms : ℕ)
    → AreFaithful l
    → IsReadable r timestamp_ms
    → serialize_receipt l (client_receipt r) timestamp_ms ≡ serialize_intent_message r timestamp_ms
serialize_receipt-client_receipt l r timestamp_ms f h =
    rw
      (
        serialize_receipt-to_bytes l (client_receipt r) timestamp_ms f,
        contract_receipt-client_receipt l r timestamp_ms f h,
      )
      (to_bytes-submitted r timestamp_ms h.blobs)

-- What a client makes of a stored receipt: its own reading of it, the outcome of its check, and the
-- call that it builds.
pub record Checked (l : Libraries) (to_number : ℕ → ℕ) (r : Enclave.Receipt) (timestamp_ms : ℕ)
    (signature pk : Bytes) (stored : StoredReceipt) (package_id gateway_id checkpoint_id : Str)
    : Type 0 where
  pub receipt : Receipt
  pub read : read_record to_number stored ≡ some receipt
  pub verified :
      verify_receipt l receipt (to_number stored.timestamp_ms) stored.signature (key_bytes pk)
      ≡ l.ed25519_verify signature (serialize_intent_message r timestamp_ms) pk
  pub built :
      build_verify_transaction l package_id gateway_id checkpoint_id
        (to_number stored.timestamp_ms)
        receipt
        stored.signature
      ≡ record {
        package_id = package_id;
        gateway_id = gateway_id;
        checkpoint_id = checkpoint_id;
        timestamp_ms = timestamp_ms;
        receipt = submitted r;
        sig = signature;
      }

-- A client that reads a stored receipt checks the signature on exactly the bytes that the enclave
-- signed, and builds the call of `verify` with exactly these fields, this time and this signature, if
-- its counters are at most 2 ^ 53, beyond which JSON.parse rounds. The hypotheses are that the hex of
-- both sides is that of small digits, and that the bcs of the client writes the format.
pub read_record-Checked :
    (l : Libraries) (to_number : ℕ → ℕ) (hex_encode : Bytes → Str)
    → AreFaithful l
    → ((n : ℕ) → IsExact n → to_number n ≡ n)
    → ((bytes : Bytes) → hex_encode bytes ≡ hex bytes)
    → (r : Enclave.Receipt) (timestamp_ms : ℕ) (signature pk : Bytes)
      (package_id gateway_id checkpoint_id : Str)
    → IsReadable r timestamp_ms
    → AreBytes signature
    → Checked l to_number r timestamp_ms signature pk
        (stored_receipt hex_encode r timestamp_ms signature)
        package_id
        gateway_id
        checkpoint_id
unfolding stored_receipt build_verify_transaction
read_record-Checked l to_number hex_encode f exact hex_lower r timestamp_ms signature pk package_id
      gateway_id checkpoint_id h s =
    let time = exact timestamp_ms h.signed_at in
    let sig = f.from_hex signature s in
    record {
      receipt = client_receipt r;
      read =
          read_record-stored_receipt hex_encode hex_lower to_number exact r timestamp_ms signature
            h;
      verified =
          rw
            (
              hex_lower signature,
              time,
              verify_receipt_lem,
              sig,
              serialize_receipt-client_receipt l r timestamp_ms f h,
            )
            refl;
      built =
          rw (hex_lower signature, time, sig, contract_receipt-client_receipt l r timestamp_ms f h)
            refl;
    }
