-- ===== src/Move/Receipt/Verified.antt =====
-- receipt.move: what `verify` accepts.
use sekisho.Base.{ℕ, ◌<◌, ◌^◌, Bool, true, false, not, ok, ◌≡◌, refl, sym, ap, ◌∙◌, arith, length}
use mathlib.Core.Path.{subst}
use sekisho.Text.{Bytes}
use sekisho.Receipt as Enclave
use sekisho.Receipt.{le_bytes, serialize_intent_message}
use sekisho.Receipt.Encoding.{message, serialize-message}
use sekisho.Receipt.Reader.RoundTrip.{IsU64, IsText, IsSized, sized-injective}
use sekisho.Move.{TxContext, assert, bind-ok, assert-ok}
use sekisho.Move.Bcs.{le_value-le_bytes, length-le_bytes}
use sekisho.Move.Checkpoint.{Checkpoint, Gateway, is_revoked}
use sekisho.Move.Receipt.{
  Receipt, VerifiedReceipt, ReceiptVerified, receipt_bytes, to_bytes, intent_message,
  verified_receipt, receipt_verified, verify,
}
use sekisho.Move.Receipt.Parity.{submitted}

abbrev pub IsU256 : ℕ → Type 0
IsU256 n = n < 256 ^ 32

-- What the types of a receipt's fields say.
pub record IsTyped (r : Receipt) : Type 0 where
  pub receipt_id : IsU64 (length r.receipt_id)
  pub config_hash : IsU64 (length r.config_hash)
  pub endpoint_host : IsText r.endpoint_host
  pub tls_cert_sha256 : IsU64 (length r.tls_cert_sha256)
  pub request_blob : IsU256 r.request_blob
  pub upstream_request_blob : IsU256 r.upstream_request_blob
  pub upstream_headers_hash : IsU64 (length r.upstream_headers_hash)
  pub model_id : IsText r.model_id
  pub provider_request_id : IsText r.provider_request_id
  pub response_blob : IsU256 r.response_blob
  pub provider_meta_hash : IsU64 (length r.provider_meta_hash)
  pub input_tokens : IsU64 r.input_tokens
  pub cache_creation_tokens : IsU64 r.cache_creation_tokens
  pub cache_read_tokens : IsU64 r.cache_read_tokens
  pub output_tokens : IsU64 r.output_tokens

-- The receipt of the enclave with these fields.
with_blob_bytes : Receipt → Enclave.Receipt
with_blob_bytes r = record {
  receipt_id = r.receipt_id;
  config_hash = r.config_hash;
  provider = r.provider;
  endpoint_host = r.endpoint_host;
  tls_cert_sha256 = r.tls_cert_sha256;
  request_blob = le_bytes 32 r.request_blob;
  upstream_request_blob = le_bytes 32 r.upstream_request_blob;
  upstream_headers_hash = r.upstream_headers_hash;
  model_id = r.model_id;
  provider_request_id = r.provider_request_id;
  response_blob = le_bytes 32 r.response_blob;
  provider_meta_hash = r.provider_meta_hash;
  input_tokens = r.input_tokens;
  cache_creation_tokens = r.cache_creation_tokens;
  cache_read_tokens = r.cache_read_tokens;
  output_tokens = r.output_tokens;
  outcome = r.outcome;
}

to_bytes-with_blob_bytes :
    (r : Receipt) (timestamp_ms : ℕ)
    → to_bytes (intent_message timestamp_ms r)
      ≡ serialize_intent_message (with_blob_bytes r) timestamp_ms
unfolding to_bytes receipt_bytes with_blob_bytes message
to_bytes-with_blob_bytes r timestamp_ms = sym (serialize-message (with_blob_bytes r) timestamp_ms)

submitted-with_blob_bytes : (r : Receipt) → IsTyped r → submitted (with_blob_bytes r) ≡ r
unfolding submitted with_blob_bytes
submitted-with_blob_bytes r h =
    rw
      (
        le_value-le_bytes 32 r.request_blob h.request_blob,
        le_value-le_bytes 32 r.upstream_request_blob h.upstream_request_blob,
        le_value-le_bytes 32 r.response_blob h.response_blob,
      )
      refl

with_blob_bytes-IsSized : (r : Receipt) → IsTyped r → IsSized (with_blob_bytes r)
unfolding with_blob_bytes
with_blob_bytes-IsSized r h = record {
  receipt_id = h.receipt_id;
  config_hash = h.config_hash;
  endpoint_host = h.endpoint_host;
  tls_cert_sha256 = h.tls_cert_sha256;
  request_blob = length-le_bytes 32 r.request_blob;
  upstream_request_blob = length-le_bytes 32 r.upstream_request_blob;
  upstream_headers_hash = h.upstream_headers_hash;
  model_id = h.model_id;
  provider_request_id = h.provider_request_id;
  response_blob = length-le_bytes 32 r.response_blob;
  provider_meta_hash = h.provider_meta_hash;
  input_tokens = h.input_tokens;
  cache_creation_tokens = h.cache_creation_tokens;
  cache_read_tokens = h.cache_read_tokens;
  output_tokens = h.output_tokens;
}

-- What a verified receipt shows: its gateway's code version is not revoked, and the enclave made a
-- receipt with exactly the fields that the witness and the event carry, at that time.
pub record Authentic (Made : Enclave.Receipt → ℕ → Type 0) (gateway : Gateway)
    (checkpoint : Checkpoint) (clock timestamp_ms : ℕ) (ctx : TxContext)
    (verified : VerifiedReceipt) (event : ReceiptVerified) : Type 0 where
  pub current : is_revoked checkpoint gateway.pcr_version ≡ ok false
  pub payload : Enclave.Receipt
  pub made : Made payload timestamp_ms
  pub witnessed : verified ≡ verified_receipt (submitted payload)
  pub emitted : event ≡ receipt_verified gateway clock timestamp_ms (submitted payload) ctx

module _ (ed25519_verify : Bytes → Bytes → Bytes → Bool) (gateway : Gateway) where
  -- The parts of a check that does not abort.
  pub verify-ok :
      (checkpoint : Checkpoint) (clock timestamp_ms : ℕ) (receipt : Receipt) (sig : Bytes)
      (ctx : TxContext) (verified : VerifiedReceipt) (event : ReceiptVerified)
      → verify ed25519_verify gateway checkpoint clock timestamp_ms receipt sig ctx
        ≡ ok (verified, event)
      → (is_revoked checkpoint gateway.pcr_version ≡ ok false)
        × (ed25519_verify sig gateway.pk (to_bytes (intent_message timestamp_ms receipt)) ≡ true)
        × (verified ≡ verified_receipt receipt)
        × (event ≡ receipt_verified gateway clock timestamp_ms receipt ctx)
  unfolding verify
  verify-ok checkpoint clock timestamp_ms receipt sig ctx verified event h =
      let (revoked, a, h1) = bind-ok (is_revoked checkpoint gateway.pcr_version) _ h in
      let (u, b, h2) = bind-ok (assert (not revoked) _) _ h1 in
      let (v, c, h3) =
        bind-ok
          (assert (ed25519_verify sig gateway.pk (to_bytes (intent_message timestamp_ms receipt)))
            _)
          _ h2 in
      (a ∙ ap ok (off revoked (assert-ok _ _ b)), assert-ok _ _ c, cc h3, cc h3)
    where
      off : (b : Bool) → not b ≡ true → b ≡ false
      off b h = ground arith

module _ (ed25519_verify : Bytes → Bytes → Bytes → Bool) (Made : Enclave.Receipt → ℕ → Type 0)
    (gateway : Gateway) where
  -- If a signature that the key of a gateway accepts is on the bytes of a receipt that the enclave
  -- made, then a receipt that `verify` accepts is of a code version that is not revoked, and its
  -- witness and its event have exactly the fields and the time of a receipt that the enclave made.
  pub verify-Authentic :
      ((sig message : Bytes)
        → ed25519_verify sig gateway.pk message ≡ true
        → (r : Enclave.Receipt) × (t : ℕ) × Made r t
          × IsSized r
          × IsU64 t
          × (message ≡ serialize_intent_message r t))
      → (checkpoint : Checkpoint) (clock timestamp_ms : ℕ) (receipt : Receipt) (sig : Bytes)
        (ctx : TxContext) (verified : VerifiedReceipt) (event : ReceiptVerified)
      → IsTyped receipt
      → IsU64 timestamp_ms
      → verify ed25519_verify gateway checkpoint clock timestamp_ms receipt sig ctx
        ≡ ok (verified, event)
      → Authentic Made gateway checkpoint clock timestamp_ms ctx verified event
  verify-Authentic unforgeable checkpoint clock timestamp_ms receipt sig ctx verified event typed ht
        h =
      let (current, accepted, witnessed, emitted) =
        verify-ok ed25519_verify gateway checkpoint clock timestamp_ms receipt sig ctx verified
          event h in
      let (r, t, made, sized, hu, e) = unforgeable sig _ accepted in
      let (same_receipt, same_time) =
        sized-injective (with_blob_bytes receipt) r timestamp_ms t
          (with_blob_bytes-IsSized receipt typed) sized ht hu
          (sym (to_bytes-with_blob_bytes receipt timestamp_ms) ∙ e) in
      let fields : receipt ≡ submitted r =
        sym (submitted-with_blob_bytes receipt typed) ∙ ap submitted same_receipt in
      record {
        current = current;
        payload = r;
        made = subst (Made r) (sym same_time) made;
        witnessed = witnessed ∙ ap verified_receipt fields;
        emitted = emitted ∙ ap (λ q. receipt_verified gateway clock timestamp_ms q ctx) fields;
      }
