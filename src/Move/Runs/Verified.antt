-- ===== src/Move/Runs/Verified.antt =====
-- receipt.move: what verify accepts of a key that signs one receipt.
use sekisho.Base.{ℕ, Bool, true, ok, ◌≡◌, refl, arith, same, same_refl, same_sound}
use sekisho.Text.{Bytes}
use sekisho.Receipt as Enclave
use sekisho.Receipt.{serialize_intent_message}
use sekisho.Receipt.Reader.RoundTrip.{IsReceipt-IsSized, IsSized, IsU64}
use sekisho.Fixtures.{
  receipt, signed_at, host-IsText, model-IsText, request_id-IsText, receipt-IsReceipt,
}
use sekisho.Move.Checkpoint.{borrow, is_revoked}
use sekisho.Move.Receipt.{verified_receipt, receipt_verified, verify}
use sekisho.Move.Bcs.{le_value}
use sekisho.Move.Receipt.Parity.{submitted, to_bytes-submitted}
use sekisho.Move.Receipt.Verified.{IsTyped, Authentic, verify-Authentic}
use sekisho.Move.Runs.{tx, gateway, approving, signature, receipt-HasBlobIds}

submitted-IsTyped : IsTyped (submitted receipt)
unfolding submitted le_value
submitted-IsTyped = record {
  receipt_id = omega arith;
  config_hash = omega arith;
  endpoint_host = host-IsText;
  tls_cert_sha256 = omega arith;
  request_blob = omega arith;
  upstream_request_blob = omega arith;
  upstream_headers_hash = omega arith;
  model_id = model-IsText;
  provider_request_id = request_id-IsText;
  response_blob = omega arith;
  provider_meta_hash = omega arith;
  input_tokens = omega arith;
  cache_creation_tokens = omega arith;
  cache_read_tokens = omega arith;
  output_tokens = omega arith;
}

-- A key that accepts no message but that of the one receipt made.
abbrev Made : Enclave.Receipt → ℕ → Type 0
Made r t = (r ≡ receipt) × (t ≡ signed_at)

abbrev genuine : Bytes → Bytes → Bytes → Bool
genuine sig pk message = same message (serialize_intent_message receipt signed_at)

unforgeable :
    (sig message : Bytes)
    → genuine sig gateway.pk message ≡ true
    → (r : Enclave.Receipt) × (t : ℕ) × Made r t
      × IsSized r
      × IsU64 t
      × (message ≡ serialize_intent_message r t)
unforgeable sig message h = (
  receipt,
  signed_at,
  (refl, refl),
  IsReceipt-IsSized receipt receipt-IsReceipt,
  omega arith,
  same_sound message (serialize_intent_message receipt signed_at) h,
)

genuine_verifies :
    verify genuine gateway approving 1700000000001 signed_at (submitted receipt) signature tx
    ≡ ok (
      verified_receipt (submitted receipt),
      receipt_verified gateway 1700000000001 signed_at (submitted receipt) tx,
    )
unfolding verify is_revoked borrow
genuine_verifies =
    rw
      (
        verify,
        to_bytes-submitted receipt signed_at receipt-HasBlobIds,
        same_refl (serialize_intent_message receipt signed_at),
      )
      refl

verify-Authentic_example :
    Authentic Made gateway approving 1700000000001 signed_at tx
      (verified_receipt (submitted receipt))
      (receipt_verified gateway 1700000000001 signed_at (submitted receipt) tx)
verify-Authentic_example =
    verify-Authentic genuine Made gateway unforgeable approving 1700000000001 signed_at
      (submitted receipt) signature tx _ _ submitted-IsTyped (omega arith) genuine_verifies
