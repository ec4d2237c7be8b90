-- ===== src/Receipt.antt =====
-- receipt.rs: the receipt and the bytes that are signed for it.
pub mod Encoding
pub mod Reader
pub mod Stored
mod Runs
mod Tests
use Prim.Native.Nat.{bit_and, bit_or}
use sekisho.Base.{ℕ, zero, suc, ◌+◌, ◌/◌, ◌%◌, ◌^◌, [], ◌∷◌, ◌++◌, not, ◌==◌, if◌then◌else◌, length}
use sekisho.Text.{Str, Bytes}
use sekisho.Text.Utf8.{as_bytes, byte_len}

abbrev pub receipt_intent : ℕ
receipt_intent = 0

pub record Receipt : Type 0 where
  pub receipt_id : Bytes
  pub config_hash : Bytes
  pub provider : ℕ
  pub endpoint_host : Str
  pub tls_cert_sha256 : Bytes
  pub request_blob : Bytes
  pub upstream_request_blob : Bytes
  pub upstream_headers_hash : Bytes
  pub model_id : Str
  pub provider_request_id : Str
  pub response_blob : Bytes
  pub provider_meta_hash : Bytes
  pub input_tokens : ℕ
  pub cache_creation_tokens : ℕ
  pub cache_read_tokens : ℕ
  pub output_tokens : ℕ
  pub outcome : ℕ

-- `u64::to_le_bytes`: the lowest byte first.
unfoldable pub le_bytes : ℕ → ℕ → Bytes
le_bytes zero n = []
le_bytes (suc k) n = (n % 256) ∷ le_bytes k (n / 256)

unfoldable pub to_le_bytes : ℕ → Bytes
unfolding le_bytes
to_le_bytes = le_bytes 8

-- The loop of `write_uleb128`, on fuel; each round writes seven bits.
uleb128_loop : ℕ → Bytes → ℕ → Bytes
uleb128_loop zero buf value = buf
uleb128_loop (suc f) buf value =
    let low = bit_and value 0x7f % 256 in
    let shifted = value / 2 ^ 7 in
    let byte = if not (shifted == 0) then bit_or low 0x80 else low in
    let written = buf ++ byte ∷ [] in
    let rest = uleb128_loop f written shifted in if shifted == 0 then written else rest

-- A `usize` has 64 bits, so ten rounds are enough.
pub write_uleb128 : Bytes → ℕ → Bytes
unfolding uleb128_loop
write_uleb128 = uleb128_loop 10

pub write_bcs_bytes : Bytes → Bytes → Bytes
unfolding write_uleb128
write_bcs_bytes buf bytes = write_uleb128 buf (length bytes) ++ bytes

pub write_bcs_string : Bytes → Str → Bytes
unfolding write_uleb128
write_bcs_string buf value = write_uleb128 buf (byte_len value) ++ as_bytes value

pub write_u256_le : Bytes → Bytes → Bytes
write_u256_le buf bytes = buf ++ bytes

pub serialize_intent_message : Receipt → ℕ → Bytes
serialize_intent_message payload timestamp_ms =
    let b = receipt_intent ∷ [] in
    let b = b ++ to_le_bytes timestamp_ms in
    let b = write_bcs_bytes b payload.receipt_id in
    let b = write_bcs_bytes b payload.config_hash in
    let b = b ++ payload.provider ∷ [] in
    let b = write_bcs_string b payload.endpoint_host in
    let b = write_bcs_bytes b payload.tls_cert_sha256 in
    let b = write_u256_le b payload.request_blob in
    let b = write_u256_le b payload.upstream_request_blob in
    let b = write_bcs_bytes b payload.upstream_headers_hash in
    let b = write_bcs_string b payload.model_id in
    let b = write_bcs_string b payload.provider_request_id in
    let b = write_u256_le b payload.response_blob in
    let b = write_bcs_bytes b payload.provider_meta_hash in
    let b = b ++ to_le_bytes payload.input_tokens in
    let b = b ++ to_le_bytes payload.cache_creation_tokens in
    let b = b ++ to_le_bytes payload.cache_read_tokens in
    let b = b ++ to_le_bytes payload.output_tokens in b ++ payload.outcome ∷ []
