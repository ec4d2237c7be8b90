-- ===== src/Move/Tests.antt =====
-- The tests beside the contracts, on the model; signatures are checked by a function that accepts one
-- signature.
use sekisho.Base.{
  ℕ, ◌-◌, ◌^◌, Bool, true, false, ◌&&◌, ◌==◌, [], ◌∷◌, ◌++◌, none, some, Result, ok, err, ◌>>=◌,
  same, length, replicate, ◌≡◌, refl,
}
use sekisho.Text.{Str, Bytes, lit}
use sekisho.Text.Utf8.{as_bytes, encode_char}
use sekisho.Receipt.{le_bytes, to_le_bytes}
use sekisho.Receipt.Encoding.{groups}
use sekisho.Fixtures.{hex}
use sekisho.Move.{
  Abort, TxContext, entry_index_out_of_bounds, nonce_not_sender, pcrs_not_approved, pcrs_revoked,
  not_gateway_operator, invalid_signature, revoked_gateway,
}
use sekisho.Move.Checkpoint.{
  Checkpoint, CheckpointCap, Gateway, borrow, init, approve_pcrs, set_revoked, revoke_pcrs,
  find_from, find_matching_entry, validate_and_find_version, destroy_gateway, is_revoked, code_ref,
  expect, approved_pcrs_count,
}
use sekisho.Move.Receipt.{
  Receipt, VerifiedReceipt, ReceiptVerified, new_receipt, receipt_bytes, to_bytes, intent_message,
  verified_receipt, receipt_verified, verify,
}

abbrev admin : TxContext
admin = record { sender = replicate 31 0 ++ 10 ∷ []; new_object = λ n. replicate 32 n }

abbrev other : TxContext
other = record { sender = replicate 31 0 ++ 11 ∷ []; new_object = λ n. replicate 32 n }

abbrev checkpoint : Checkpoint
unfolding init
checkpoint = (init admin).0

abbrev cap : CheckpointCap
unfolding init
cap = (init admin).1

abbrev nominal_receipt : Receipt
unfolding new_receipt
nominal_receipt =
    new_receipt (0 ∷ 1 ∷ 2 ∷ 3 ∷ 4 ∷ 5 ∷ 6 ∷ 7 ∷ 8 ∷ 9 ∷ 10 ∷ 11 ∷ 12 ∷ 13 ∷ 14 ∷ 15 ∷ [])
      (replicate 32 0xaa) 0 (lit "api.anthropic.com") (replicate 32 0xbb)
      0x1111111111111111111111111111111111111111111111111111111111111111
      0x2222222222222222222222222222222222222222222222222222222222222222 (replicate 32 0xcc)
      (lit "claude-haiku-4-5-20251001") (lit "msg_011Ce3rq3tLXgrQNPLAYKda8")
      0x3333333333333333333333333333333333333333333333333333333333333333 (replicate 32 0xdd) 17 0 0
      9 0

abbrev refused_receipt : Receipt
unfolding new_receipt
refused_receipt =
    new_receipt (replicate 16 0xff) (replicate 32 1) 1 (lit "api.openai.com") (replicate 32 2) 0 0
      (replicate 32 3) (replicate 200 b'm') [] 0 (replicate 32 4) (2 ^ 64 - 1) (2 ^ 64 - 1) 0 0 1

abbrev nominal_hex : Str
nominal_hex =
    lit "00f6f9a003a001000010000102030405060708090a0b0c0d0e0f20aaaaaaaaaaaaaaaaaaaaaa"
    ++ lit "aaaaaaaaaaaaaaaaaaaaaaaaaaaaaaaaaaaaaaaaaa00116170692e616e7468726f7069632e63"
    ++ lit "6f6d20bbbbbbbbbbbbbbbbbbbbbbbbbbbbbbbbbbbbbbbbbbbbbbbbbbbbbbbbbbbbbbbb111111"
    ++ lit "1111111111111111111111111111111111111111111111111111111111222222222222222222"
    ++ lit "222222222222222222222222222222222222222222222220cccccccccccccccccccccccccccc"
    ++ lit "cccccccccccccccccccccccccccccccccccc19636c617564652d6861696b752d342d352d3230"
    ++ lit "3235313030311c6d73675f303131436533727133744c586772514e504c41594b646138333333"
    ++ lit "333333333333333333333333333333333333333333333333333333333320dddddddddddddddd"
    ++ lit "dddddddddddddddddddddddddddddddddddddddddddddddd1100000000000000000000000000"
    ++ lit "00000000000000000000090000000000000000"

abbrev refused_hex : Str
refused_hex =
    lit "00007c291f9401000010ffffffffffffffffffffffffffffffff200101010101010101010101"
    ++ lit "010101010101010101010101010101010101010101010e6170692e6f70656e61692e636f6d20"
    ++ lit "0202020202020202020202020202020202020202020202020202020202020202000000000000"
    ++ lit "0000000000000000000000000000000000000000000000000000000000000000000000000000"
    ++ lit "0000000000000000000000000000000000000000200303030303030303030303030303030303"
    ++ lit "030303030303030303030303030303c8016d6d6d6d6d6d6d6d6d6d6d6d6d6d6d6d6d6d6d6d6d"
    ++ lit "6d6d6d6d6d6d6d6d6d6d6d6d6d6d6d6d6d6d6d6d6d6d6d6d6d6d6d6d6d6d6d6d6d6d6d6d6d6d"
    ++ lit "6d6d6d6d6d6d6d6d6d6d6d6d6d6d6d6d6d6d6d6d6d6d6d6d6d6d6d6d6d6d6d6d6d6d6d6d6d6d"
    ++ lit "6d6d6d6d6d6d6d6d6d6d6d6d6d6d6d6d6d6d6d6d6d6d6d6d6d6d6d6d6d6d6d6d6d6d6d6d6d6d"
    ++ lit "6d6d6d6d6d6d6d6d6d6d6d6d6d6d6d6d6d6d6d6d6d6d6d6d6d6d6d6d6d6d6d6d6d6d6d6d6d6d"
    ++ lit "6d6d6d6d6d6d6d6d6d6d6d6d6d6d6d6d6d6d6d6d6d6d6d6d6d6d6d0000000000000000000000"
    ++ lit "0000000000000000000000000000000000000000000020040404040404040404040404040404"
    ++ lit "0404040404040404040404040404040404ffffffffffffffffffffffffffffffff0000000000"
    ++ lit "000000000000000000000001"

abbrev bcs_parity_nominal_success : Bool
unfolding to_bytes
bcs_parity_nominal_success =
    let bytes = to_bytes (intent_message 1786767276534 nominal_receipt) in
    length bytes == 361 && same (hex bytes) nominal_hex

abbrev bcs_parity_refusal_unarchived_max_tokens : Bool
unfolding to_bytes
bcs_parity_refusal_unarchived_max_tokens =
    let bytes = to_bytes (intent_message 1735689600000 refused_receipt) in
    length bytes == 506 && same (hex bytes) refused_hex

parity_tests : (bcs_parity_nominal_success && bcs_parity_refusal_unarchived_max_tokens) ≡ true
unfolding to_bytes receipt_bytes new_receipt to_le_bytes le_bytes as_bytes encode_char groups
parity_tests = refl

abbrev first : Checkpoint × ℕ
unfolding approve_pcrs
first = approve_pcrs checkpoint cap (0xaa ∷ []) (0xbb ∷ []) (0xcc ∷ []) (lit "v1.0.0")

abbrev second : Checkpoint × ℕ
unfolding approve_pcrs
second = approve_pcrs first.0 cap (0xdd ∷ []) (0xee ∷ []) (0xff ∷ []) (lit "v1.1.0")

abbrev revoked : Result Checkpoint Abort
unfolding revoke_pcrs
revoked = revoke_pcrs second.0 cap first.1

-- A test is a type of equations that hold by computation.
abbrev ApproveThenRevoke : Type 0
ApproveThenRevoke =
    (first.1 ≡ 0)
    × (is_revoked first.0 first.1 ≡ ok false)
    × (code_ref first.0 first.1 ≡ ok (lit "v1.0.0"))
    × (second.1 ≡ 1)
    × ((revoked >>= λ c. is_revoked c first.1) ≡ ok true)
    × ((revoked >>= λ c. is_revoked c second.1) ≡ ok false)

approve_then_revoke : ApproveThenRevoke
unfolding init approve_pcrs revoke_pcrs set_revoked is_revoked code_ref borrow
approve_then_revoke = (refl, refl, refl, refl, refl, refl)

init_tests :
    (approved_pcrs_count checkpoint ≡ 0)
    × (revoke_pcrs checkpoint cap 0 ≡ err entry_index_out_of_bounds)
unfolding init approved_pcrs_count revoke_pcrs
init_tests = (refl, refl)

abbrev v0 : Checkpoint × ℕ
unfolding approve_pcrs
v0 = approve_pcrs checkpoint cap (1 ∷ []) (2 ∷ []) (3 ∷ []) (lit "v0")

abbrev v0_revoked : Result Checkpoint Abort
unfolding revoke_pcrs
v0_revoked = revoke_pcrs v0.0 cap v0.1

abbrev FindMatchingEntryDistinguishes : Type 0
FindMatchingEntryDistinguishes =
    (find_matching_entry v0.0 (1 ∷ []) (2 ∷ []) (3 ∷ []) ≡ some v0.1)
    × (find_matching_entry v0.0 (0x99 ∷ []) (2 ∷ []) (3 ∷ []) ≡ none)
    × ((v0_revoked >>= λ c.
          expect (find_matching_entry c (1 ∷ []) (2 ∷ []) (3 ∷ [])) pcrs_not_approved
          >>= is_revoked c)
        ≡ ok true)

find_matching_entry_distinguishes : FindMatchingEntryDistinguishes
unfolding init approve_pcrs revoke_pcrs set_revoked is_revoked borrow find_matching_entry find_from
find_matching_entry_distinguishes = (refl, refl, refl)

abbrev ValidateAndFindVersion : Type 0
ValidateAndFindVersion =
    (validate_and_find_version v0.0 admin.sender admin.sender (1 ∷ []) (2 ∷ []) (3 ∷ []) ≡ ok v0.1)
    × (validate_and_find_version v0.0 admin.sender other.sender (1 ∷ []) (2 ∷ []) (3 ∷ [])
        ≡ err nonce_not_sender)
    × (validate_and_find_version v0.0 admin.sender admin.sender (0xff ∷ []) (2 ∷ []) (3 ∷ [])
        ≡ err pcrs_not_approved)
    × ((v0_revoked >>= λ c.
          validate_and_find_version c admin.sender admin.sender (1 ∷ []) (2 ∷ []) (3 ∷ []))
        ≡ err pcrs_revoked)

validate_tests : ValidateAndFindVersion
unfolding init approve_pcrs revoke_pcrs set_revoked borrow find_matching_entry find_from
    validate_and_find_version
validate_tests = (refl, refl, refl, refl)

abbrev gateway : Gateway
gateway = record {
  id = replicate 32 1;
  pk = 0x12 ∷ 0x34 ∷ [];
  pcr_version = 0;
  operator = other.sender;
  registered_at_ms = 0;
}

destroy_gateway_tests :
    (destroy_gateway gateway admin ≡ err not_gateway_operator)
    × (destroy_gateway gateway other ≡ ok tt)
unfolding destroy_gateway
destroy_gateway_tests = (refl, refl)

-- The signature of the tests, by its first and last bytes.
abbrev accepts : Bytes → Bytes → Bytes → Bool
accepts sig pk message = same sig (0xf4 ∷ 0x02 ∷ [])

abbrev check : Checkpoint → Bytes → Result (VerifiedReceipt × ReceiptVerified) Abort
unfolding verify
check c sig = verify accepts gateway c 0 1786767276534 nominal_receipt sig admin

abbrev Verify : Type 0
Verify =
    (check first.0 (0xf4 ∷ 0x02 ∷ [])
      ≡ ok (
        verified_receipt nominal_receipt,
        receipt_verified gateway 0 1786767276534 nominal_receipt admin,
      ))
    × (check first.0 (0xf4 ∷ 0xfa ∷ []) ≡ err invalid_signature)
    × ((revoked >>= λ c. check c (0xf4 ∷ 0x02 ∷ [])) ≡ err revoked_gateway)

verify_tests : Verify
unfolding init approve_pcrs revoke_pcrs set_revoked is_revoked borrow verify to_bytes
verify_tests = (refl, refl, refl)
