-- ===== src/Move/Receipt/Accepted.antt =====
-- receipt.move and server.rs: `verify` on the receipts that the enclave stores.
use sekisho.Base.{ℕ, inl, inr, Bool-cases, Bool, true, ok, err, ◌≡◌, refl, if◌then◌else◌}
use sekisho.Text.{Bytes}
use sekisho.Receipt.Stored.{StoredReceipt}
use sekisho.External.{External}
use sekisho.Server.Handlers.Reachable.{IsAttested}
use sekisho.Move.{revoked_gateway, TxContext}
use sekisho.Move.Checkpoint.{PcrSet, Checkpoint, Gateway, borrow, is_revoked}
use sekisho.Move.Receipt.{verified_receipt, receipt_verified, verify}
use sekisho.Move.Receipt.Parity.{submitted, HasBlobIds, to_bytes-submitted}

module _ (x : External) (ed25519_verify : Bytes → Bytes → Bytes → Bool) where
  -- What becomes of a stored receipt on chain, when the code version of its gateway is as given.
  pub verify-IsAttested :
      (gateway : Gateway)
      → ((message signature : Bytes)
          → x.sign message ≡ ok signature
          → ed25519_verify signature gateway.pk message ≡ true)
      → (config_hash : Bytes) (stored : StoredReceipt) (a : IsAttested x config_hash stored)
        (checkpoint : Checkpoint) (entry : PcrSet) (clock : ℕ) (ctx : TxContext)
      → HasBlobIds a.payload
      → borrow checkpoint.approved_pcrs gateway.pcr_version ≡ ok entry
      → verify ed25519_verify gateway checkpoint clock a.timestamp_ms
          (submitted a.payload)
          a.signature
          ctx
        ≡ (if entry.revoked
            then err revoked_gateway
            else ok (
              verified_receipt (submitted a.payload),
              receipt_verified gateway clock a.timestamp_ms (submitted a.payload) ctx,
            ))
  unfolding verify is_revoked
  verify-IsAttested gateway correct config_hash stored a checkpoint entry clock ctx blobs found =
      let accepted = correct _ _ a.signed in
      elim (Bool-cases entry.revoked) [
        | inl r ↦ rw (verify, is_revoked, found, r) refl
        | inr r ↦
            rw
              (
                verify,
                is_revoked,
                found,
                r,
                to_bytes-submitted a.payload a.timestamp_ms blobs,
                accepted,
              )
              refl
      ]
