-- ===== src/Move/Chain/Receipts.antt =====
-- server.rs, checkpoint.move and receipt.move together: the receipts of a registered enclave on chain.
use sekisho.Base.{ℕ, Bool, true, some, ok, err, ◌≡◌, sym, ap, ◌∙◌, if◌then◌else◌}
use mathlib.Core.Path.{subst}
use sekisho.Text.{Bytes}
use sekisho.Receipt.Stored.{StoredReceipt}
use sekisho.External.{External}
use sekisho.Server.Handlers.Reachable.{IsAttested}
use sekisho.Move.{revoked_gateway, TxContext}
use sekisho.Move.Checkpoint.{
  PcrSet, Gateway, NitroAttestationDocument, borrow, pcr_by_index, register,
}
use sekisho.Move.Checkpoint.Register.{register_iff}
use sekisho.Move.Receipt.{verified_receipt, receipt_verified, verify}
use sekisho.Move.Receipt.Parity.{submitted, HasBlobIds}
use sekisho.Move.Receipt.Accepted.{verify-IsAttested}
use sekisho.Move.Chain.{Chain, Steps}
use sekisho.Move.Chain.Gateways.{Steps-Extends}

module _ (x : External) (ed25519_verify : Bytes → Bytes → Bytes → Bool) where
  -- What `verify` makes of a stored receipt on a chain: it depends on nothing but whether the entry
  -- with the measurements of the gateway's document is revoked.
  pub record Verdict (later : Chain) (document : NitroAttestationDocument) (gateway : Gateway)
      (config_hash : Bytes) (stored : StoredReceipt) (a : IsAttested x config_hash stored)
      (clock : ℕ) (ctx : TxContext) : Type 0 where
    pub entry : PcrSet
    pub found : borrow later.checkpoint.approved_pcrs gateway.pcr_version ≡ ok entry
    pub has_pcr0 : pcr_by_index document.pcrs 0 ≡ ok entry.pcr0
    pub has_pcr1 : pcr_by_index document.pcrs 1 ≡ ok entry.pcr1
    pub has_pcr2 : pcr_by_index document.pcrs 2 ≡ ok entry.pcr2
    pub verdict :
        verify ed25519_verify gateway later.checkpoint clock a.timestamp_ms
          (submitted a.payload)
          a.signature
          ctx
        ≡ (if entry.revoked
            then err revoked_gateway
            else ok (
              verified_receipt (submitted a.payload),
              receipt_verified gateway clock a.timestamp_ms (submitted a.payload) ctx,
            ))

  -- A gateway that was registered with the key of an enclave has its receipts verified at all later
  -- times, after any calls, until its code version is revoked: `verify` on a receipt that the enclave
  -- stores aborts with `revoked_gateway` if the entry with the measurements of the document is
  -- revoked by then, and otherwise gives the fields of the receipt in the witness and in the event.
  -- The hypotheses are that ed25519_verify accepts what the enclave signs, and that the blob ids are
  -- of 32 bytes.
  pub verify-registered :
      (before later : Chain) (document : NitroAttestationDocument) (registrar : TxContext)
      (gateway : Gateway) (key : Bytes)
      → register before.checkpoint document registrar ≡ ok gateway
      → Steps ed25519_verify before later
      → document.public_key ≡ some key
      → ((message signature : Bytes)
          → x.sign message ≡ ok signature
          → ed25519_verify signature key message ≡ true)
      → (config_hash : Bytes) (stored : StoredReceipt) (a : IsAttested x config_hash stored)
      → HasBlobIds a.payload
      → (clock : ℕ) (ctx : TxContext)
      → Verdict later document gateway config_hash stored a clock ctx
  verify-registered before later document registrar gateway key h steps has_key correct config_hash
        stored a blobs clock ctx =
      let r = (register_iff before.checkpoint document registrar gateway).0 h in
      let version = r.version.first in
      let (entry, found, keeps) =
        (Steps-Extends ed25519_verify steps).kept gateway.pcr_version version.entry version.found in
      let same_key : key ≡ gateway.pk = cc (has_key, r.key) in
      record {
        entry = entry;
        found = found;
        has_pcr0 = r.has_pcr0 ∙ ap ok (sym (keeps.pcr0 ∙ version.has_pcr0));
        has_pcr1 = r.has_pcr1 ∙ ap ok (sym (keeps.pcr1 ∙ version.has_pcr1));
        has_pcr2 = r.has_pcr2 ∙ ap ok (sym (keeps.pcr2 ∙ version.has_pcr2));
        verdict =
            verify-IsAttested x ed25519_verify gateway
              (λ message signature e.
                subst (λ k. ed25519_verify signature k message ≡ true) same_key
                  (correct message signature e))
              config_hash stored a later.checkpoint entry clock ctx blobs found;
      }
