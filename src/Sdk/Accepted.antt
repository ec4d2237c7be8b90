-- ===== src/Sdk/Accepted.antt =====
-- server.rs, the client, checkpoint.move and receipt.move together: a stored receipt on its way from
-- the gateway over a client to the chain.
use sekisho.Base.{ℕ, Bool, true, some, ok, err, ◌≡◌, ◌∙◌, if◌then◌else◌}
use sekisho.Text.{Str, Bytes}
use sekisho.Text.Hex.{hex}
use sekisho.Receipt.Stored.{StoredReceipt}
use sekisho.External.{External}
use sekisho.Server.Handlers.Reachable.{IsAttested}
use sekisho.Move.{revoked_gateway, TxContext}
use sekisho.Move.Bcs.{AreBytes}
use sekisho.Move.Checkpoint.{
  PcrSet, Gateway, NitroAttestationDocument, borrow, pcr_by_index, register,
}
use sekisho.Move.Receipt.{verified_receipt, receipt_verified, verify}
use sekisho.Move.Receipt.Parity.{submitted}
use sekisho.Move.Chain.{Chain, Steps}
use sekisho.Move.Chain.Receipts.{verify-registered}
use sekisho.Sdk.{
  Libraries, Receipt, key_bytes, read_record, verify_receipt, build_verify_transaction,
}
use sekisho.Sdk.Parity.{AreFaithful}
use sekisho.Sdk.Check.{IsExact, IsReadable, Checked, read_record-Checked}

module _ (x : External) (l : Libraries) (to_number : ℕ → ℕ)
    (ed25519_verify : Bytes → Bytes → Bytes → Bool) where
  -- What comes of a stored receipt that a client reads, checks under a key, and submits for a gateway
  -- on a chain.
  pub record Accepted (later : Chain) (document : NitroAttestationDocument) (gateway : Gateway)
      (key config_hash : Bytes) (stored : StoredReceipt) (a : IsAttested x config_hash stored)
      (package_id gateway_id checkpoint_id : Str) (clock : ℕ) (ctx : TxContext) : Type 0 where
    pub receipt : Receipt
    pub read : read_record to_number stored ≡ some receipt
    pub checked :
        verify_receipt l receipt (to_number stored.timestamp_ms) stored.signature (key_bytes key)
        ≡ true
    pub entry : PcrSet
    pub found : borrow later.checkpoint.approved_pcrs gateway.pcr_version ≡ ok entry
    pub has_pcr0 : pcr_by_index document.pcrs 0 ≡ ok entry.pcr0
    pub has_pcr1 : pcr_by_index document.pcrs 1 ≡ ok entry.pcr1
    pub has_pcr2 : pcr_by_index document.pcrs 2 ≡ ok entry.pcr2
    pub verdict :
        let call =
          build_verify_transaction l package_id gateway_id checkpoint_id
            (to_number stored.timestamp_ms)
            receipt
            stored.signature in
        verify ed25519_verify gateway later.checkpoint clock call.timestamp_ms call.receipt call.sig
          ctx
        ≡ (if entry.revoked
            then err revoked_gateway
            else ok (
              verified_receipt (submitted a.payload),
              receipt_verified gateway clock a.timestamp_ms (submitted a.payload) ctx,
            ))

  -- A stored receipt goes the whole way. A client reads it, and its check under the key of the enclave
  -- accepts it; the call of `verify` that it then builds, made at any later time on a gateway that was
  -- registered with that key, aborts with `revoked_gateway` if the entry with the measurements of the
  -- gateway's document is revoked by then, and otherwise gives the fields and the time that the
  -- enclave signed in the witness and the event. The hypotheses are that both checks of a signature
  -- accept what the enclave signs, that the bcs of the client writes the format, that the hex of both
  -- sides is that of small digits, and that no number of the receipt is above 2 ^ 53.
  pub read_record-Accepted :
      (before later : Chain) (document : NitroAttestationDocument) (registrar : TxContext)
      (gateway : Gateway) (key : Bytes)
      → register before.checkpoint document registrar ≡ ok gateway
      → Steps ed25519_verify before later
      → document.public_key ≡ some key
      → ((message signature : Bytes)
          → x.sign message ≡ ok signature
          → (ed25519_verify signature key message ≡ true)
            × (l.ed25519_verify signature message key ≡ true))
      → AreFaithful l
      → ((n : ℕ) → IsExact n → to_number n ≡ n)
      → ((bytes : Bytes) → x.hex_encode bytes ≡ hex bytes)
      → (config_hash : Bytes) (stored : StoredReceipt) (a : IsAttested x config_hash stored)
      → IsReadable a.payload a.timestamp_ms
      → AreBytes a.signature
      → (package_id gateway_id checkpoint_id : Str) (clock : ℕ) (ctx : TxContext)
      → Accepted later document gateway key config_hash stored a package_id gateway_id checkpoint_id
          clock ctx
  read_record-Accepted before later document registrar gateway key h steps has_key correct f exact
        hex_lower config_hash stored a readable in_range package_id gateway_id checkpoint_id clock
        ctx =
      let c : Checked l to_number a.payload a.timestamp_ms a.signature key stored package_id
          gateway_id checkpoint_id =
        rw a.stored_form (
          read_record-Checked l to_number x.hex_encode f exact hex_lower a.payload a.timestamp_ms
            a.signature key package_id gateway_id checkpoint_id readable in_range) in
      let v =
        verify-registered x ed25519_verify before later document registrar gateway key h steps
          has_key (λ message signature e. (correct message signature e).0) config_hash stored a
          readable.blobs clock ctx in
      record {
        receipt = c.receipt;
        read = c.read;
        checked = c.verified ∙ (correct _ a.signature a.signed).1;
        entry = v.entry;
        found = v.found;
        has_pcr0 = v.has_pcr0;
        has_pcr1 = v.has_pcr1;
        has_pcr2 = v.has_pcr2;
        verdict = rw c.built v.verdict;
      }
