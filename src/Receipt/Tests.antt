-- ===== src/Receipt/Tests.antt =====
-- receipt.rs: the tests beside the code, on the model.
use sekisho.Base.{
  ℕ, ◌-◌, ◌+◌, ◌^◌, Bool, true, false, not, ◌&&◌, ◌==◌, [], ◌∷◌, ◌++◌, Option, none, some, same,
  length, replicate, take, drop, ◌≡◌, refl,
}
use sekisho.Text.{Str, Bytes, lit, remove_char, to_lower}
use sekisho.Text.Utf8.{as_bytes, encode_char}
use sekisho.Receipt.{
  Receipt, serialize_intent_message, write_uleb128, write_bcs_bytes, write_bcs_string,
  write_u256_le, to_le_bytes, le_bytes, uleb128_loop,
}
use sekisho.Receipt.Stored.{StoredReceipt, stored_receipt, new_store, insert, get}
use sekisho.Fixtures.{hex}

-- The helpers of these names.
abbrev hash_fill : ℕ → Bytes
hash_fill byte = replicate 32 byte

abbrev empty_receipt : Receipt
empty_receipt = record {
  receipt_id = replicate 16 0;
  config_hash = hash_fill 0;
  provider = 0;
  endpoint_host = [];
  tls_cert_sha256 = hash_fill 0;
  request_blob = hash_fill 0;
  upstream_request_blob = hash_fill 0;
  upstream_headers_hash = hash_fill 0;
  model_id = [];
  provider_request_id = [];
  response_blob = hash_fill 0;
  provider_meta_hash = hash_fill 0;
  input_tokens = 0;
  cache_creation_tokens = 0;
  cache_read_tokens = 0;
  output_tokens = 0;
  outcome = 0;
}

abbrev nominal_receipt : Receipt
nominal_receipt = record {
  receipt_id = 0 ∷ 1 ∷ 2 ∷ 3 ∷ 4 ∷ 5 ∷ 6 ∷ 7 ∷ 8 ∷ 9 ∷ 10 ∷ 11 ∷ 12 ∷ 13 ∷ 14 ∷ 15 ∷ [];
  config_hash = hash_fill 0xaa;
  provider = 0;
  endpoint_host = lit "api.anthropic.com";
  tls_cert_sha256 = hash_fill 0xbb;
  request_blob = hash_fill 0x11;
  upstream_request_blob = hash_fill 0x22;
  upstream_headers_hash = hash_fill 0xcc;
  model_id = lit "claude-haiku-4-5-20251001";
  provider_request_id = lit "msg_011Ce3rq3tLXgrQNPLAYKda8";
  response_blob = hash_fill 0x33;
  provider_meta_hash = hash_fill 0xdd;
  input_tokens = 17;
  cache_creation_tokens = 0;
  cache_read_tokens = 0;
  output_tokens = 9;
  outcome = 0;
}

abbrev nominal_hex : Str
nominal_hex =
    lit "00f6f9a003a001000010000102030405060708090a0b0c0d0e0f20aaaaaaaaaaaaaaaaaaaaaa"
    ++ lit "aaaaaaaaaaaaaaaaaaaaaaaaaaaaaaaaaaaaaaaaaa00116170692e616e7468726f7069632e63"
    ++ lit "6f6d20bbbbbbbbbbbbbbbbbbbbbbbbbbbbbbbbbbbbbbbbbbbbbbbbbbbbbbbbbbbbbbbb111111"
    ++ lit "1111111111111111111111111111111111111111111111111111111111222222222222222222"
    ++ lit "222222222222222222222222222222222222222222222220cccccccccccccccccccccccccccc"
    ++ lit "cccccccccccccccccccccccccccccccccccc19636c617564652d6861696b752d342d352d3230"
    ++ lit "3235313030311c6d73675f303131436533727133744c586772514e504c41594b646138333333"
    ++ lit "333333333333333333333333333333333333333333333333333333333320dddddddddddddddd"
    ++ lit "dddddddddddddddddddddddddddddddddddddddddddddddd1100000000000000000000000000"
    ++ lit "00000000000000000000090000000000000000"

abbrev refused_receipt : Receipt
refused_receipt = record {
  receipt_id = replicate 16 0xff;
  config_hash = hash_fill 1;
  provider = 1;
  endpoint_host = lit "api.openai.com";
  tls_cert_sha256 = hash_fill 2;
  request_blob = hash_fill 0;
  upstream_request_blob = hash_fill 0;
  upstream_headers_hash = hash_fill 3;
  model_id = replicate 200 b'm';
  provider_request_id = [];
  response_blob = hash_fill 0;
  provider_meta_hash = hash_fill 4;
  input_tokens = 2 ^ 64 - 1;
  cache_creation_tokens = 2 ^ 64 - 1;
  cache_read_tokens = 0;
  output_tokens = 0;
  outcome = 1;
}

abbrev refused_hex : Str
refused_hex =
    lit "00007c291f9401000010ffffffffffffffffffffffffffffffff200101010101010101010101"
    ++ lit "010101010101010101010101010101010101010101010e6170692e6f70656e61692e636f6d20"
    ++ lit "0202020202020202020202020202020202020202020202020202020202020202000000000000"
    ++ lit "0000000000000000000000000000000000000000000000000000000000000000000000000000"
    ++ lit "0000000000000000000000000000000000000000200303030303030303030303030303030303"
    ++ lit "030303030303030303030303030303c8016d6d6d6d6d6d6d6d6d6d6d6d6d6d6d6d6d6d6d6d6d"
    ++ lit "6d6d6d6d6d6d6d6d6d6d6d6d6d6d6d6d6d6d6d6d6d6d6d6d6d6d6d6d6d6d6d6d6d6d6d6d6d6d"
    ++ lit "6d6d6d6d6d6d6d6d6d6d6d6d6d6d6d6d6d6d6d6d6d6d6d6d6d6d6d6d6d6d6d6d6d6d6d6d6d6d"
    ++ lit "6d6d6d6d6d6d6d6d6d6d6d6d6d6d6d6d6d6d6d6d6d6d6d6d6d6d6d6d6d6d6d6d6d6d6d6d6d6d"
    ++ lit "6d6d6d6d6d6d6d6d6d6d6d6d6d6d6d6d6d6d6d6d6d6d6d6d6d6d6d6d6d6d6d6d6d6d6d6d6d6d"
    ++ lit "6d6d6d6d6d6d6d6d6d6d6d6d6d6d6d6d6d6d6d6d6d6d6d6d6d6d6d0000000000000000000000"
    ++ lit "0000000000000000000000000000000000000000000020040404040404040404040404040404"
    ++ lit "0404040404040404040404040404040404ffffffffffffffffffffffffffffffff0000000000"
    ++ lit "000000000000000000000001"

abbrev parity_vector_nominal_anthropic_success : Bool
unfolding serialize_intent_message
parity_vector_nominal_anthropic_success =
    let bytes = serialize_intent_message nominal_receipt 1786767276534 in
    length bytes == 361 && same (hex bytes) nominal_hex

abbrev parity_vector_refusal_unarchived_max_tokens : Bool
unfolding serialize_intent_message
parity_vector_refusal_unarchived_max_tokens =
    let bytes = serialize_intent_message refused_receipt 1735689600000 in
    length bytes == 506 && same (hex bytes) refused_hex

abbrev uleb128_multi_byte_length_matches_model_id_prefix : Bool
unfolding write_uleb128
uleb128_multi_byte_length_matches_model_id_prefix = same (write_uleb128 [] 200) (0xc8 ∷ 0x01 ∷ [])

abbrev blob_fields_are_fixed_32_bytes_with_no_length_prefix : Bool
unfolding serialize_intent_message
blob_fields_are_fixed_32_bytes_with_no_length_prefix =
    let bytes =
      serialize_intent_message (record empty_receipt { request_blob = hash_fill 0x77 }) 0 in
    same (take 32 (drop (1 + 8 + 17 + 33 + 1 + 1 + 33) bytes)) (hash_fill 0x77)

abbrev stored : Bytes → StoredReceipt
unfolding stored_receipt
stored id = stored_receipt hex (record empty_receipt { receipt_id = id }) 0 (replicate 64 0)

abbrev holds : Option StoredReceipt → Bool
holds none = false
holds (some _) = true

abbrev ring_buffer_evicts_oldest_when_over_capacity : Bool
unfolding stored insert new_store get
ring_buffer_evicts_oldest_when_over_capacity =
    let store =
      insert (insert (insert (new_store 2) (stored (replicate 16 1))) (stored (replicate 16 2)))
        (stored (replicate 16 3)) in
    not (holds (get store (hex (replicate 16 1)))) && holds (get store (hex (replicate 16 3)))

abbrev stored_receipt_id_is_hex_and_lookup_accepts_the_dashed_uuid_form : Bool
unfolding stored insert new_store get
stored_receipt_id_is_hex_and_lookup_accepts_the_dashed_uuid_form =
    let store = insert (new_store 4) (stored (replicate 16 0xab)) in
    same (stored (replicate 16 0xab)).receipt_id (hex (replicate 16 0xab))
    && holds (get store (hex (replicate 16 0xab)))
    && holds (get store (lit "abababab-abab-abab-abab-abababababab"))
    && holds (get store (lit "ABABABABABABABABABABABABABABABAB"))
    && not (holds (get store (hex (replicate 16 1))))

encoding_tests :
    (parity_vector_nominal_anthropic_success && parity_vector_refusal_unarchived_max_tokens
      && uleb128_multi_byte_length_matches_model_id_prefix
      && blob_fields_are_fixed_32_bytes_with_no_length_prefix)
    ≡ true
unfolding serialize_intent_message write_bcs_bytes write_bcs_string write_u256_le write_uleb128
    uleb128_loop to_le_bytes le_bytes as_bytes encode_char
encoding_tests = refl

store_tests :
    (ring_buffer_evicts_oldest_when_over_capacity
      && stored_receipt_id_is_hex_and_lookup_accepts_the_dashed_uuid_form)
    ≡ true
unfolding stored stored_receipt insert new_store get remove_char to_lower
store_tests = refl
