-- ===== src/Receipt/Reader/RoundTrip.antt =====
-- Reading a signed message gives the receipt and the time back.
use sekisho.Base.{ℕ, ◌^◌, ◌<◌, some, [], ◌≡◌, sym, ap, ◌∙◌, arith, length, All}
use mathlib.Core.List.{append-nil}
use sekisho.Text.{Str}
use sekisho.Text.Utf8.{byte_len, IsScalar}
use sekisho.Receipt.{Receipt, serialize_intent_message}
use sekisho.Receipt.Encoding.{message, serialize-message}
use sekisho.Receipt.Reader.{intent_message}
use sekisho.Receipt.Reader.Reads.{
  Reads, Reads-bind, Reads-pure, Reads-last, Reads-byte, Reads-u64, Reads-vector, Reads-text,
  Reads-u256, Reads-intent,
}

abbrev pub IsU64 : ℕ → Type 0
IsU64 n = n < 2 ^ 64

abbrev pub IsText : Str → Type 0
IsText s = All IsScalar s × (byte_len s < 2 ^ 64)

-- What the types of a `Receipt`'s fields say.
pub record IsReceipt (r : Receipt) : Type 0 where
  pub receipt_id : length r.receipt_id ≡ 16
  pub config_hash : length r.config_hash ≡ 32
  pub endpoint_host : IsText r.endpoint_host
  pub tls_cert_sha256 : length r.tls_cert_sha256 ≡ 32
  pub request_blob : length r.request_blob ≡ 32
  pub upstream_request_blob : length r.upstream_request_blob ≡ 32
  pub upstream_headers_hash : length r.upstream_headers_hash ≡ 32
  pub model_id : IsText r.model_id
  pub provider_request_id : IsText r.provider_request_id
  pub response_blob : length r.response_blob ≡ 32
  pub provider_meta_hash : length r.provider_meta_hash ≡ 32
  pub input_tokens : IsU64 r.input_tokens
  pub cache_creation_tokens : IsU64 r.cache_creation_tokens
  pub cache_read_tokens : IsU64 r.cache_read_tokens
  pub output_tokens : IsU64 r.output_tokens

-- The same for any vectors whose lengths can be written.
pub record IsSized (r : Receipt) : Type 0 where
  pub receipt_id : IsU64 (length r.receipt_id)
  pub config_hash : IsU64 (length r.config_hash)
  pub endpoint_host : IsText r.endpoint_host
  pub tls_cert_sha256 : IsU64 (length r.tls_cert_sha256)
  pub request_blob : length r.request_blob ≡ 32
  pub upstream_request_blob : length r.upstream_request_blob ≡ 32
  pub upstream_headers_hash : IsU64 (length r.upstream_headers_hash)
  pub model_id : IsText r.model_id
  pub provider_request_id : IsText r.provider_request_id
  pub response_blob : length r.response_blob ≡ 32
  pub provider_meta_hash : IsU64 (length r.provider_meta_hash)
  pub input_tokens : IsU64 r.input_tokens
  pub cache_creation_tokens : IsU64 r.cache_creation_tokens
  pub cache_read_tokens : IsU64 r.cache_read_tokens
  pub output_tokens : IsU64 r.output_tokens

pub IsReceipt-IsSized : (r : Receipt) → IsReceipt r → IsSized r
IsReceipt-IsSized r h = record {
  receipt_id = omega (arith, h.receipt_id);
  config_hash = omega (arith, h.config_hash);
  endpoint_host = h.endpoint_host;
  tls_cert_sha256 = omega (arith, h.tls_cert_sha256);
  request_blob = h.request_blob;
  upstream_request_blob = h.upstream_request_blob;
  upstream_headers_hash = omega (arith, h.upstream_headers_hash);
  model_id = h.model_id;
  provider_request_id = h.provider_request_id;
  response_blob = h.response_blob;
  provider_meta_hash = omega (arith, h.provider_meta_hash);
  input_tokens = h.input_tokens;
  cache_creation_tokens = h.cache_creation_tokens;
  cache_read_tokens = h.cache_read_tokens;
  output_tokens = h.output_tokens;
}

Reads-intent_message :
    (r : Receipt) (timestamp_ms : ℕ)
    → IsSized r
    → IsU64 timestamp_ms
    → Reads intent_message (message r timestamp_ms) (r, timestamp_ms)
unfolding intent_message message
Reads-intent_message r timestamp_ms h ht = Reads-bind _ Reads-intent (
    Reads-bind _ (Reads-u64 timestamp_ms ht) (
      Reads-bind _ (Reads-vector r.receipt_id h.receipt_id) (
        Reads-bind _ (Reads-vector r.config_hash h.config_hash) (
          Reads-bind _ (Reads-byte r.provider) (
            Reads-bind _ (Reads-text r.endpoint_host h.endpoint_host.0 h.endpoint_host.1) (
              Reads-bind _ (Reads-vector r.tls_cert_sha256 h.tls_cert_sha256) (
                Reads-bind _ (Reads-u256 r.request_blob h.request_blob) (
                  Reads-bind _ (Reads-u256 r.upstream_request_blob h.upstream_request_blob) (
                    Reads-bind _ (Reads-vector r.upstream_headers_hash h.upstream_headers_hash) (
                      Reads-bind _ (Reads-text r.model_id h.model_id.0 h.model_id.1) (
                        Reads-bind _
                          (Reads-text r.provider_request_id h.provider_request_id.0
                            h.provider_request_id.1)
                          (Reads-bind _ (Reads-u256 r.response_blob h.response_blob) (
                            Reads-bind _ (Reads-vector r.provider_meta_hash h.provider_meta_hash) (
                              Reads-bind _ (Reads-u64 r.input_tokens h.input_tokens) (
                                Reads-bind _
                                  (Reads-u64 r.cache_creation_tokens h.cache_creation_tokens)
                                  (Reads-bind _ (Reads-u64 r.cache_read_tokens h.cache_read_tokens)
                                    (Reads-bind _ (Reads-u64 r.output_tokens h.output_tokens) (
                                      Reads-last _ (Reads-byte r.outcome)
                                        (Reads-pure (r, timestamp_ms))))))))))))))))))))

read-sized :
    (r : Receipt) (timestamp_ms : ℕ)
    → IsSized r
    → IsU64 timestamp_ms
    → intent_message (serialize_intent_message r timestamp_ms) ≡ some ((r, timestamp_ms), [])
read-sized r timestamp_ms h ht =
    ap intent_message (serialize-message r timestamp_ms ∙ sym (append-nil _))
    ∙ (Reads-intent_message r timestamp_ms h ht).before []

-- A reader that follows the format gives back the receipt and the time that were serialized, with
-- nothing left over, for every receipt whose fields have the sizes that their Rust types say.
pub read-serialize :
    (r : Receipt) (timestamp_ms : ℕ)
    → IsReceipt r
    → IsU64 timestamp_ms
    → intent_message (serialize_intent_message r timestamp_ms) ≡ some ((r, timestamp_ms), [])
read-serialize r timestamp_ms h = read-sized r timestamp_ms (IsReceipt-IsSized r h)

pub sized-injective :
    (r s : Receipt) (t u : ℕ)
    → IsSized r
    → IsSized s
    → IsU64 t
    → IsU64 u
    → serialize_intent_message r t ≡ serialize_intent_message s u
    → (r ≡ s) × (t ≡ u)
sized-injective r s t u hr hs ht hu e = (ap (λ p. p.0) pairs, ap (λ p. p.1) pairs)
  where
    pairs : ◌≡◌ {A = Receipt × ℕ} (r, t) (s, u)
    pairs = cc (read-sized r t hr ht, read-sized s u hs hu, ap intent_message e)

-- The signed bytes commit to every field: equal bytes come from one receipt and one time.
serialize-injective :
    (r s : Receipt) (t u : ℕ)
    → IsReceipt r
    → IsReceipt s
    → IsU64 t
    → IsU64 u
    → serialize_intent_message r t ≡ serialize_intent_message s u
    → (r ≡ s) × (t ≡ u)
serialize-injective r s t u hr hs =
    sized-injective r s t u (IsReceipt-IsSized r hr) (IsReceipt-IsSized s hs)
