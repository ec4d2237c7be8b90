-- ===== src/Receipt/Reader.antt =====
-- A reader of the signed bytes, written from the format alone, as the Move side reads them: an
-- independent description of what `serialize_intent_message` writes.
pub mod Reads
pub mod RoundTrip
use sekisho.Base.{
  ℕ, zero, suc, ◌+◌, ◌-◌, ◌*◌, Option, none, some, [], ◌∷◌, ltb, ◌==◌, if◌then◌else◌,
}
use sekisho.Text.{Str, Bytes}
use sekisho.Text.Utf8.{from_utf8_lossy}
use sekisho.Receipt.{Receipt, receipt_intent}

abbrev pub Read {ℓ} : Type ℓ → Type ℓ
Read A = Bytes → Option (A × Bytes)

abbrev continue {ℓ} : {A B : Type ℓ} → Option (A × Bytes) → (A → Read B) → Option (B × Bytes)
continue none f = none
continue (some (a, rest)) f = f a rest

infixl 5 ◌>>=◌
pub ◌>>=◌ {ℓ} : {A B : Type ℓ} → Read A → (A → Read B) → Read B
◌>>=◌ p f bytes = continue (p bytes) f

pub pure {ℓ} : {A : Type ℓ} → A → Read A
pure a bytes = some (a, bytes)

pub byte : Read ℕ
byte [] = none
byte (b ∷ bytes) = some (b, bytes)

-- Exactly `n` bytes.
pub exactly : ℕ → Read Bytes
exactly zero bytes = some ([], bytes)
exactly (suc n) [] = none
exactly (suc n) (b ∷ bytes) = elim (exactly n bytes) [
  | none ↦ none
  | some (front, rest) ↦ some (b ∷ front, rest)
]

-- A little-endian number of `k` bytes.
pub little_endian : ℕ → Read ℕ
little_endian zero bytes = some (0, bytes)
little_endian (suc k) [] = none
little_endian (suc k) (b ∷ bytes) = elim (little_endian k bytes) [
  | none ↦ none
  | some (n, rest) ↦ some (b + 256 * n, rest)
]

-- A ULEB128 number of at most `k` bytes.
pub uleb : ℕ → Read ℕ
uleb zero bytes = none
uleb (suc k) [] = none
uleb (suc k) (b ∷ bytes) =
    let more = uleb k bytes in
    if ltb b 128
    then some (b, bytes)
    else elim more [ none ↦ none | some (n, rest) ↦ some (b - 128 + 128 * n, rest) ]

pub vector : Read Bytes
vector = do n ← uleb 10; exactly n

pub text : Read Str
text = do bytes ← vector; pure (from_utf8_lossy bytes)

pub u64 : Read ℕ
u64 = little_endian 8

pub u256 : Read Bytes
u256 = exactly 32

-- A message of another intent is refused.
pub intent : Read ℕ
intent [] = none
intent (b ∷ bytes) = if b == receipt_intent then some (b, bytes) else none

pub intent_message : Read (Receipt × ℕ)
intent_message = do
  _ ← intent
  timestamp_ms ← u64
  receipt_id ← vector
  config_hash ← vector
  provider ← byte
  endpoint_host ← text
  tls_cert_sha256 ← vector
  request_blob ← u256
  upstream_request_blob ← u256
  upstream_headers_hash ← vector
  model_id ← text
  provider_request_id ← text
  response_blob ← u256
  provider_meta_hash ← vector
  input_tokens ← u64
  cache_creation_tokens ← u64
  cache_read_tokens ← u64
  output_tokens ← u64
  outcome ← byte
  pure (
    record {
      receipt_id = receipt_id;
      config_hash = config_hash;
      provider = provider;
      endpoint_host = endpoint_host;
      tls_cert_sha256 = tls_cert_sha256;
      request_blob = request_blob;
      upstream_request_blob = upstream_request_blob;
      upstream_headers_hash = upstream_headers_hash;
      model_id = model_id;
      provider_request_id = provider_request_id;
      response_blob = response_blob;
      provider_meta_hash = provider_meta_hash;
      input_tokens = input_tokens;
      cache_creation_tokens = cache_creation_tokens;
      cache_read_tokens = cache_read_tokens;
      output_tokens = output_tokens;
      outcome = outcome;
    },
    timestamp_ms,
  )
