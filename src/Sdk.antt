-- ===== src/Sdk.antt =====
-- sdk/src and scripts/e2e_demo.ts: a client's side of a receipt, from the JSON that the gateway serves
-- to the transaction that has it verified.
pub mod BlobId
pub mod Parity
pub mod Check
pub mod Accepted
mod Runs
mod Tests
use sekisho.Base.{
  ℕ, zero, suc, ◌+◌, ◌-◌, ◌*◌, ◌/◌, ◌%◌, Bool, true, false, not, ◌&&◌, ◌||◌, [], ◌∷◌, ◌++◌, Option,
  none, some, leb, ltb, ◌==◌, if◌then◌else◌, and_then, map_option, is_empty, length, take, drop,
}
use sekisho.Text.{Str, Bytes, lit, starts_with}
use sekisho.Receipt.Stored.{StoredReceipt}
use sekisho.Move.Receipt as Contract
use sekisho.Move.Receipt.{new_receipt}

-- The bcs and the `fromHex` of @mysten/sui, and noble's ed25519 of a signature, a message and a key.
pub record Libraries : Type 0 where
  pub u8 : ℕ → Bytes
  pub u64 : ℕ → Bytes
  pub u256 : ℕ → Bytes
  pub byte_vector : Bytes → Bytes
  pub string : Str → Bytes
  pub from_hex : Str → Bytes
  pub ed25519_verify : Bytes → Bytes → Bytes → Bool

abbrev pub receipt_intent : ℕ
receipt_intent = 0

pub record Receipt : Type 0 where
  pub receipt_id : Str
  pub config_hash : Str
  pub provider : ℕ
  pub endpoint_host : Str
  pub tls_cert_sha256 : Str
  pub request_blob : ℕ
  pub upstream_request_blob : ℕ
  pub upstream_headers_hash : Str
  pub model_id : Str
  pub provider_request_id : Str
  pub response_blob : ℕ
  pub provider_meta_hash : Str
  pub input_tokens : ℕ
  pub cache_creation_tokens : ℕ
  pub cache_read_tokens : ℕ
  pub output_tokens : ℕ
  pub outcome : ℕ

abbrev pub is_decimal : ℕ → Bool
is_decimal c = leb b'0' c && leb c b'9'

-- The class `[0-9a-fA-F]`.
abbrev pub is_hex : ℕ → Bool
is_hex c = is_decimal c || (leb b'a' c && leb c b'f') || (leb b'A' c && leb c b'F')

-- A test of a pattern `^[..]+$`.
abbrev pub all : (ℕ → Bool) → Str → Bool
all p [] = true
all p (c ∷ s) = let rest = all p s in p c && rest

abbrev pub made_of : (ℕ → Bool) → Str → Bool
made_of p s = not (is_empty s) && all p s

abbrev pub hex_digit : ℕ → ℕ
hex_digit c = if leb c b'9' then c - b'0' else if leb c b'F' then c - b'A' + 10 else c - b'a' + 10

-- `parseInt(s, 16)` of hex digits.
abbrev pub parse_hex : ℕ → Str → ℕ
parse_hex out [] = out
parse_hex out (c ∷ s) = parse_hex (out * 16 + hex_digit c) s

-- The loop of `parseBlobId`, which counts down by two from the last pair; `odd` is where it ends.
unfoldable pub blob_loop : ℕ → ℕ → Str → ℕ → ℕ
blob_loop zero odd hex out = out
blob_loop (suc k) odd hex out =
    blob_loop k odd hex (out * 256 + parse_hex 0 (take 2 (drop (odd + 2 * k) hex)))

-- `BigInt` of decimal digits.
abbrev parse_decimal : ℕ → Str → ℕ
parse_decimal out [] = out
parse_decimal out (c ∷ s) = parse_decimal (out * 10 + (c - b'0')) s

-- `none` is a thrown error.
unfoldable pub parse_blob_id : Str → Option ℕ
unfolding blob_loop starts_with
parse_blob_id value =
    let prefixed = starts_with value (lit "0x") in
    let hex = if prefixed then drop 2 value else value in
    if made_of is_hex hex && (prefixed || length hex == 64)
    then some (blob_loop (length hex / 2) (length hex % 2) hex 0)
    else if made_of is_decimal value
    then some (parse_decimal 0 value)
    else none

-- The reading of a record of `GET /receipts/{id}` in e2e_demo.ts; `to_number` is what JSON.parse makes
-- of a number.
unfoldable pub read_record : (ℕ → ℕ) → StoredReceipt → Option Receipt
unfolding parse_blob_id
read_record to_number r =
    if not (ltb (to_number r.outcome) 4)
    then none
    else and_then (parse_blob_id r.request_blob) (λ request_blob.
      and_then (parse_blob_id r.upstream_request_blob) (λ upstream_request_blob.
        map_option
          (λ response_blob. record {
            receipt_id = r.receipt_id;
            config_hash = r.config_hash;
            provider = to_number r.provider;
            endpoint_host = r.endpoint_host;
            tls_cert_sha256 = r.tls_cert_sha256;
            request_blob = request_blob;
            upstream_request_blob = upstream_request_blob;
            upstream_headers_hash = r.upstream_headers_hash;
            model_id = r.model_id;
            provider_request_id = r.provider_request_id;
            response_blob = response_blob;
            provider_meta_hash = r.provider_meta_hash;
            input_tokens = to_number r.input_tokens;
            cache_creation_tokens = to_number r.cache_creation_tokens;
            cache_read_tokens = to_number r.cache_read_tokens;
            output_tokens = to_number r.output_tokens;
            outcome = to_number r.outcome;
          })
          (parse_blob_id r.response_blob)))

-- A public key is bytes or their hex.
pub data PublicKey : Type 0 where
  key_bytes : Bytes → PublicKey
  key_hex : Str → PublicKey

-- The call of `verify`, whose receipt is the result of the call of `new_receipt` before it.
pub record VerifyCall : Type 0 where
  pub package_id : Str
  pub gateway_id : Str
  pub checkpoint_id : Str
  pub timestamp_ms : ℕ
  pub receipt : Contract.Receipt
  pub sig : Bytes

module _ (l : Libraries) where
  open l use {u8, u64, u256, byte_vector, string, from_hex, ed25519_verify}

  unfoldable pub serialize_receipt : Receipt → ℕ → Bytes
  serialize_receipt r timestamp_ms =
      u8 receipt_intent
      ++ (u64 timestamp_ms
          ++ (byte_vector (from_hex r.receipt_id)
              ++ (byte_vector (from_hex r.config_hash)
                  ++ (u8 r.provider
                      ++ (string r.endpoint_host
                          ++ (byte_vector (from_hex r.tls_cert_sha256)
                              ++ (u256 r.request_blob
                                  ++ (u256 r.upstream_request_blob
                                      ++ (byte_vector (from_hex r.upstream_headers_hash)
                                          ++ (string r.model_id
                                              ++ (string r.provider_request_id
                                                  ++ (u256 r.response_blob
                                                      ++ (byte_vector
                                                            (from_hex r.provider_meta_hash)
                                                          ++ (u64 r.input_tokens
                                                            ++ (u64 r.cache_creation_tokens
                                                            ++ (u64 r.cache_read_tokens
                                                            ++ (u64 r.output_tokens
                                                            ++ u8 r.outcome)))))))))))))))))

  public_key : PublicKey → Bytes
  public_key (key_bytes bytes) = bytes
  public_key (key_hex text) = from_hex text

  unfoldable pub verify_receipt : Receipt → ℕ → Str → PublicKey → Bool
  unfolding serialize_receipt public_key
  verify_receipt receipt timestamp_ms signature_hex enclave_pubkey =
      ed25519_verify (from_hex signature_hex) (serialize_receipt receipt timestamp_ms)
        (public_key enclave_pubkey)

  unfoldable pub build_verify_transaction : Str → Str → Str → ℕ → Receipt → Str → VerifyCall
  unfolding new_receipt
  build_verify_transaction package_id gateway_id checkpoint_id timestamp_ms r signature_hex =
      record {
        package_id = package_id;
        gateway_id = gateway_id;
        checkpoint_id = checkpoint_id;
        timestamp_ms = timestamp_ms;
        receipt =
            new_receipt (from_hex r.receipt_id) (from_hex r.config_hash) r.provider r.endpoint_host
              (from_hex r.tls_cert_sha256) r.request_blob r.upstream_request_blob
              (from_hex r.upstream_headers_hash) r.model_id r.provider_request_id r.response_blob
              (from_hex r.provider_meta_hash) r.input_tokens r.cache_creation_tokens
              r.cache_read_tokens r.output_tokens r.outcome;
        sig = from_hex signature_hex;
      }
