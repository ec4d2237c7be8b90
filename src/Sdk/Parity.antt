-- ===== src/Sdk/Parity.antt =====
-- receipt.ts, extension.ts and receipt.move together: a client and the contract check one message.
use sekisho.Base.{ℕ, [], ◌∷◌, Bool, false, ok, err, ◌≡◌, refl, if◌then◌else◌, Bool-cases, inl, inr}
use sekisho.Text.{Str, Bytes}
use sekisho.Text.Hex.{hex}
use sekisho.Text.Utf8.{as_bytes}
use sekisho.Move.Bcs.{AreBytes}
use sekisho.Receipt.{to_le_bytes, le_bytes}
use sekisho.Receipt.Encoding.{sequence}
use sekisho.Move.{invalid_signature, TxContext}
use sekisho.Move.Checkpoint.{Gateway, Checkpoint, is_revoked}
use sekisho.Move.Receipt as Contract
use sekisho.Move.Receipt.{
  new_receipt, receipt_bytes, to_bytes, intent_message, verified_receipt, receipt_verified, verify,
}
use sekisho.Sdk.{
  Libraries, Receipt, key_bytes, serialize_receipt, public_key, verify_receipt,
  build_verify_transaction,
}

-- The libraries write BCS and read hex.
pub record AreFaithful (l : Libraries) : Type 0 where
  pub u8 : (n : ℕ) → l.u8 n ≡ n ∷ []
  pub u64 : (n : ℕ) → l.u64 n ≡ to_le_bytes n
  pub u256 : (n : ℕ) → l.u256 n ≡ le_bytes 32 n
  pub byte_vector : (bytes : Bytes) → l.byte_vector bytes ≡ sequence bytes
  pub string : (text : Str) → l.string text ≡ sequence (as_bytes text)
  pub from_hex : (bytes : Bytes) → AreBytes bytes → l.from_hex (hex bytes) ≡ bytes

-- The receipt of the call that a client builds.
abbrev pub contract_receipt : Libraries → Receipt → Contract.Receipt
contract_receipt l r = (build_verify_transaction l [] [] [] 0 r []).receipt

pub serialize_receipt-to_bytes :
    (l : Libraries) (r : Receipt) (timestamp_ms : ℕ)
    → AreFaithful l
    → serialize_receipt l r timestamp_ms
      ≡ to_bytes (intent_message timestamp_ms (contract_receipt l r))
unfolding serialize_receipt to_bytes receipt_bytes build_verify_transaction new_receipt
serialize_receipt-to_bytes l r timestamp_ms f = simp (f.u8, f.u64, f.u256, f.byte_vector, f.string)

pub verify_receipt_lem :
    (l : Libraries) (receipt : Receipt) (timestamp_ms : ℕ) (signature_hex : Str) (pk : Bytes)
    → verify_receipt l receipt timestamp_ms signature_hex (key_bytes pk)
      ≡ l.ed25519_verify (l.from_hex signature_hex) (serialize_receipt l receipt timestamp_ms) pk
unfolding verify_receipt public_key
verify_receipt_lem l receipt timestamp_ms signature_hex pk = refl

-- A client's check and the contract's are one: on the call of `verify` that a client builds of a
-- record, whatever it holds, for a gateway whose version is not revoked, `verify` aborts with
-- `invalid_signature` if the client refuses the record under the key of the gateway, and otherwise
-- gives the witness and the event. The hypotheses are that the bcs of the client writes the format,
-- and that the two checks of a signature agree.
pub verify-build_verify_transaction :
    (l : Libraries) (ed25519_verify : Bytes → Bytes → Bytes → Bool)
    → AreFaithful l
    → ((sig pk message : Bytes) → ed25519_verify sig pk message ≡ l.ed25519_verify sig message pk)
    → (gateway : Gateway) (checkpoint : Checkpoint) (clock : ℕ)
      (package_id gateway_id checkpoint_id : Str) (timestamp_ms : ℕ) (r : Receipt)
      (signature_hex : Str) (ctx : TxContext)
    → is_revoked checkpoint gateway.pcr_version ≡ ok false
    → let call =
        build_verify_transaction l package_id gateway_id checkpoint_id timestamp_ms r
          signature_hex in
      verify ed25519_verify gateway checkpoint clock call.timestamp_ms call.receipt call.sig ctx ≡ (
        if verify_receipt l r timestamp_ms signature_hex (key_bytes gateway.pk)
        then ok (
          verified_receipt call.receipt,
          receipt_verified gateway clock timestamp_ms call.receipt ctx,
        )
        else err invalid_signature)
unfolding verify build_verify_transaction
verify-build_verify_transaction l ed25519_verify f same_check gateway checkpoint clock package_id
      gateway_id checkpoint_id timestamp_ms r signature_hex ctx current =
    rw
      (
        verify,
        current,
        verify_receipt_lem,
        serialize_receipt-to_bytes l r timestamp_ms f,
        same_check,
      )
      (elim (Bool-cases (
        l.ed25519_verify (l.from_hex signature_hex)
          (to_bytes (intent_message timestamp_ms (contract_receipt l r))) gateway.pk)) [
            | inl h ↦ rw h refl
            | inr h ↦ rw h refl
          ])
