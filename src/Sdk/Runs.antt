-- ===== src/Sdk/Runs.antt =====
-- A client that reads the receipt of the fixtures, checks it, and submits it to a chain.
use sekisho.Base.{
  ◌+◌, ◌*◌, ◌/◌, [], ◌∷◌, Bool, ok, err, if◌then◌else◌, same_refl, true, false, ◌≡◌, refl, arith,
  replicate, same,
}
use sekisho.Text.{Str, Bytes, lit}
use sekisho.Text.Hex.{digit, hex}
use sekisho.Text.Utf8.{as_bytes}
use sekisho.Receipt.{to_le_bytes, le_bytes}
use sekisho.Receipt.Encoding.{sequence}
use sekisho.Receipt.Stored.{stored_receipt}
use sekisho.Fixtures.{external, receipt, signed_at}
use sekisho.Move.Bcs.{AreBytes, replicate-AreBytes}
use sekisho.Move.Receipt.Parity.{IsBlobId}
use sekisho.External.{External}
use sekisho.Receipt.Stored.{StoredReceipt}
use sekisho.Server.Handlers.Reachable.{IsAttested}
use sekisho.Move.{invalid_signature}
use sekisho.Move.Checkpoint.{borrow, is_revoked}
use sekisho.Move.Receipt.{verified_receipt, receipt_verified, verify}
use sekisho.Move.Runs.{
  tx, document, gateway, approving, revoking, chain, document_registers, revocation,
}
use sekisho.Sdk.{Libraries, hex_digit, key_bytes, verify_receipt, build_verify_transaction}
use sekisho.Sdk.Parity.{verify-build_verify_transaction}
use sekisho.Sdk.Accepted.{Accepted, read_record-Accepted}
use sekisho.Sdk.BlobId.{hex_digit-digit}
use sekisho.Sdk.Parity.{AreFaithful}
use sekisho.Sdk.Check.{IsReadable, client_receipt, Checked, read_record-Checked}

abbrev unhex : Str → Bytes
unhex [] = []
unhex (c ∷ []) = []
unhex (c ∷ d ∷ s) = (hex_digit c * 16 + hex_digit d) ∷ unhex s

abbrev libraries : Libraries
libraries = record {
  u8 = λ n. n ∷ [];
  u64 = to_le_bytes;
  u256 = le_bytes 32;
  byte_vector = sequence;
  string = λ text. sequence (as_bytes text);
  from_hex = unhex;
  ed25519_verify = λ sig message pk. same sig message;
}

unhex-hex : (bytes : Bytes) → AreBytes bytes → unhex (hex bytes) ≡ bytes
unhex-hex [] h = refl
unhex-hex (b ∷ bytes) (h, hs) =
    let e : hex_digit (digit (b / 16)) * 16 + hex_digit (digit b) ≡ b =
      omega (arith, hex_digit-digit (b / 16), hex_digit-digit b) in
    ground (arith, e, unhex-hex bytes hs)

libraries-AreFaithful : AreFaithful libraries
libraries-AreFaithful = record {
  u8 = λ n. refl;
  u64 = λ n. refl;
  u256 = λ n. refl;
  byte_vector = λ bytes. refl;
  string = λ text. refl;
  from_hex = unhex-hex;
}

nines-IsBlobId : IsBlobId (replicate 32 9)
nines-IsBlobId = record { sized = refl; in_range = replicate-AreBytes 32 9 (omega arith) }

receipt-IsReadable : IsReadable receipt signed_at
receipt-IsReadable = record {
  receipt_id = replicate-AreBytes 16 5 (omega arith);
  config_hash = replicate-AreBytes 32 7 (omega arith);
  tls_cert_sha256 = replicate-AreBytes 32 0 (omega arith);
  upstream_headers_hash = replicate-AreBytes 32 7 (omega arith);
  provider_meta_hash = replicate-AreBytes 32 7 (omega arith);
  blobs = record {
    request_blob = nines-IsBlobId;
    upstream_request_blob = nines-IsBlobId;
    response_blob = nines-IsBlobId;
  };
  signed_at = omega arith;
  provider = omega arith;
  outcome = omega arith;
  input_tokens = omega arith;
  cache_creation_tokens = omega arith;
  cache_read_tokens = omega arith;
  output_tokens = omega arith;
}

read_record-Checked_example :
    Checked libraries
      (λ n. n)
      receipt
      signed_at
      (replicate 64 1)
      (7 ∷ 8 ∷ [])
      (stored_receipt hex receipt signed_at (replicate 64 1))
      (lit "0x1")
      (lit "0x2")
      (lit "0x3")
read_record-Checked_example =
    read_record-Checked libraries (λ n. n) hex libraries-AreFaithful (λ n h. refl) (λ bytes. refl)
      receipt signed_at (replicate 64 1) (7 ∷ 8 ∷ []) (lit "0x1") (lit "0x2") (lit "0x3")
      receipt-IsReadable (replicate-AreBytes 64 1 (omega arith))

-- One signature, made of every message and accepted for every message.
abbrev signature : Bytes
signature = replicate 64 1

abbrev accepts : Bytes → Bytes → Bytes → Bool
accepts sig pk message = same sig signature

abbrev signer : External
signer = record external { sign = λ message. ok signature }

abbrev accepting : Libraries
accepting = record libraries { ed25519_verify = λ sig message pk. same sig signature }

accepting-AreFaithful : AreFaithful accepting
accepting-AreFaithful = record {
  u8 = λ n. refl;
  u64 = λ n. refl;
  u256 = λ n. refl;
  byte_vector = λ bytes. refl;
  string = λ text. refl;
  from_hex = unhex-hex;
}

abbrev stored : StoredReceipt
unfolding stored_receipt
stored = stored_receipt hex receipt signed_at signature

abbrev stored-IsAttested : IsAttested signer (replicate 32 7) stored
unfolding stored_receipt
stored-IsAttested = record {
  payload = receipt;
  timestamp_ms = signed_at;
  signature = signature;
  signed = refl;
  configured = refl;
  stored_form = refl;
}

same_signature :
    (message sig : Bytes)
    → signer.sign message ≡ ok sig
    → (accepts sig (7 ∷ 8 ∷ []) message ≡ true)
      × (accepting.ed25519_verify sig message (7 ∷ 8 ∷ []) ≡ true)
same_signature message sig h = let e : signature ≡ sig = cc h in rw e (same_refl sig, same_refl sig)

read_record-Accepted_example :
    Accepted signer accepting
      (λ n. n)
      accepts
      (chain revoking)
      document
      gateway
      (7 ∷ 8 ∷ [])
      (replicate 32 7)
      stored
      stored-IsAttested
      (lit "0x1")
      (lit "0x2")
      (lit "0x3")
      1700000000001
      tx
unfolding stored-IsAttested
read_record-Accepted_example =
    read_record-Accepted signer accepting (λ n. n) accepts (chain approving) (chain revoking)
      document tx gateway (7 ∷ 8 ∷ []) document_registers (revocation accepts) refl same_signature
      accepting-AreFaithful (λ n h. refl) (λ bytes. refl) (replicate 32 7) stored stored-IsAttested
      receipt-IsReadable (replicate-AreBytes 64 1 (omega arith)) (lit "0x1") (lit "0x2") (lit "0x3")
      1700000000001 tx

not_revoked : is_revoked approving gateway.pcr_version ≡ ok false
unfolding is_revoked borrow
not_revoked = refl

verify-build_verify_transaction_example :
    let call =
      build_verify_transaction libraries
        (lit "0x1")
        (lit "0x2")
        (lit "0x3")
        signed_at
        (client_receipt receipt)
        (lit "0102") in
    verify
      (λ sig pk message. same sig message)
      gateway
      approving
      1700000000001
      call.timestamp_ms
      call.receipt
      call.sig
      tx
    ≡ (if verify_receipt libraries
          (client_receipt receipt)
          signed_at
          (lit "0102")
          (key_bytes gateway.pk)
        then ok (
          verified_receipt call.receipt,
          receipt_verified gateway 1700000000001 signed_at call.receipt tx,
        )
        else err invalid_signature)
verify-build_verify_transaction_example =
    verify-build_verify_transaction libraries (λ sig pk message. same sig message)
      libraries-AreFaithful (λ sig pk message. refl) gateway approving 1700000000001 (lit "0x1")
      (lit "0x2") (lit "0x3") signed_at (client_receipt receipt) (lit "0102") tx not_revoked
