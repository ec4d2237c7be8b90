-- ===== src/Receipt/Encoding.antt =====
-- The signed bytes without the buffer: each writer appends the encoding of its value.
use sekisho.Base.{
  ℕ, zero, suc, ◌+◌, ◌/◌, ◌%◌, [], ◌∷◌, ◌++◌, ◌≡◌, sym, arith, ltb, if◌then◌else◌, length,
  bit_and_seven_ones, bit_or_top,
}
use mathlib.Core.List.{append_assoc, append-nil}
use sekisho.Text.{Str, Bytes}
use sekisho.Text.Utf8.{as_bytes, byte_len}
use sekisho.Receipt.{
  Receipt, receipt_intent, to_le_bytes, uleb128_loop, write_uleb128, write_bcs_bytes,
  write_bcs_string, write_u256_le, serialize_intent_message,
}

-- The groups of seven bits of `n`, the lowest first, with the top bit set on all but the last.
unfoldable pub groups : ℕ → ℕ → Bytes
groups zero n = []
groups (suc k) n =
    let rest = groups k (n / 128) in if ltb n 128 then n ∷ [] else (n % 128 + 128) ∷ rest

-- The ULEB128 encoding of a 64-bit number.
abbrev pub uleb128 : ℕ → Bytes
uleb128 = groups 10

uleb128_loop-groups : (k : ℕ) (buf : Bytes) (n : ℕ) → uleb128_loop k buf n ≡ buf ++ groups k n
unfolding uleb128_loop groups
uleb128_loop-groups zero buf n = sym (append-nil buf)
uleb128_loop-groups (suc k) buf n = ground (
  arith,
  bit_and_seven_ones n,
  bit_or_top (n % 128),
  uleb128_loop-groups k (buf ++ (n % 128 + 128) ∷ []) (n / 128),
  append_assoc buf ((n % 128 + 128) ∷ []) (groups k (n / 128)),
)

pub write_uleb128-groups : (buf : Bytes) (n : ℕ) → write_uleb128 buf n ≡ buf ++ uleb128 n
unfolding write_uleb128
write_uleb128-groups = uleb128_loop-groups 10

abbrev pub sequence : Bytes → Bytes
sequence bytes = uleb128 (length bytes) ++ bytes

pub write_bcs_bytes-sequence :
    (buf bytes : Bytes) → write_bcs_bytes buf bytes ≡ buf ++ sequence bytes
unfolding write_bcs_bytes
write_bcs_bytes-sequence buf bytes =
    rw (write_uleb128-groups buf (length bytes)) (append_assoc buf (uleb128 (length bytes)) bytes)

pub write_bcs_string-sequence :
    (buf : Bytes) (text : Str) → write_bcs_string buf text ≡ buf ++ sequence (as_bytes text)
unfolding write_bcs_string
write_bcs_string-sequence buf text =
    rw (write_uleb128-groups buf (byte_len text))
      (append_assoc buf (uleb128 (byte_len text)) (as_bytes text))

-- The fields of a signed message in their order.
unfoldable pub message : Receipt → ℕ → Bytes
message r timestamp_ms =
    (receipt_intent ∷ [])
    ++ (to_le_bytes timestamp_ms
        ++ (sequence r.receipt_id
            ++ (sequence r.config_hash
                ++ ((r.provider ∷ [])
                    ++ (sequence (as_bytes r.endpoint_host)
                        ++ (sequence r.tls_cert_sha256
                            ++ (r.request_blob
                                ++ (r.upstream_request_blob
                                    ++ (sequence r.upstream_headers_hash
                                        ++ (sequence (as_bytes r.model_id)
                                            ++ (sequence (as_bytes r.provider_request_id)
                                                ++ (r.response_blob
                                                    ++ (sequence r.provider_meta_hash
                                                        ++ (to_le_bytes r.input_tokens
                                                            ++ (to_le_bytes r.cache_creation_tokens
                                                            ++ (to_le_bytes r.cache_read_tokens
                                                            ++ (to_le_bytes r.output_tokens
                                                            ++ (r.outcome ∷ []))))))))))))))))))

behind_bytes :
    (buf bytes rest : Bytes) → write_bcs_bytes buf bytes ++ rest ≡ buf ++ (sequence bytes ++ rest)
behind_bytes buf bytes rest =
    rw (write_bcs_bytes-sequence buf bytes) (append_assoc buf (sequence bytes) rest)

behind_string :
    (buf : Bytes) (text : Str) (rest : Bytes)
    → write_bcs_string buf text ++ rest ≡ buf ++ (sequence (as_bytes text) ++ rest)
behind_string buf text rest =
    rw (write_bcs_string-sequence buf text) (append_assoc buf (sequence (as_bytes text)) rest)

behind_u256 : (buf bytes rest : Bytes) → write_u256_le buf bytes ++ rest ≡ buf ++ (bytes ++ rest)
unfolding write_u256_le
behind_u256 = append_assoc

-- `serialize_intent_message` writes exactly these fields, in this order, after one another.
pub serialize-message :
    (r : Receipt) (timestamp_ms : ℕ)
    → serialize_intent_message r timestamp_ms ≡ message r timestamp_ms
unfolding serialize_intent_message message
serialize-message r timestamp_ms = rw (
  append_assoc, append_assoc, append_assoc, append_assoc, behind_bytes, behind_u256, behind_string,
  behind_string, behind_bytes, behind_u256, behind_u256, behind_bytes, behind_string, append_assoc,
  behind_bytes, behind_bytes, append_assoc,
)
