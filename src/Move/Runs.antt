-- ===== src/Move/Runs.antt =====
-- A code version that is approved and revoked, a gateway of it, and a receipt of its enclave.
mod Attested
mod Verified
use sekisho.Base.{
  zero, suc, ◌+◌, Bool, true, false, [], ◌∷◌, some, ok, err, ◌≡◌, ◌↔◌, refl, arith, same, same_refl,
  replicate, if◌then◌else◌,
}
use sekisho.Text.{Bytes, lit}
use sekisho.Receipt as Enclave
use sekisho.Receipt.{serialize_intent_message}
use sekisho.Receipt.Stored.{StoredReceipt, stored_receipt}
use sekisho.Server.Handlers.Reachable.{IsAttested}
use sekisho.Fixtures.{external, hex, receipt, signed_at}
use sekisho.Move.{nonce_not_sender, pcrs_revoked, revoked_gateway, TxContext}
use sekisho.Move.Checkpoint.{
  PcrSet, Checkpoint, CheckpointCap, Gateway, NitroAttestationDocument, borrow, find_from,
  find_matching_entry, validate_and_find_version, pcr_by_index, set_revoked, approve_pcrs,
  revoke_pcrs, register, init,
}
use sekisho.Move.Checkpoint.Register.{Registers, register_iff}
use sekisho.Move.Receipt.{to_bytes, intent_message, verify}
use sekisho.Move.Bcs.{replicate-AreBytes}
use sekisho.Move.Receipt.Parity.{submitted, IsBlobId, HasBlobIds, to_bytes-submitted}
use sekisho.Move.Chain.{Chain, published, approved, revoked, registered, Steps, here, next}
use sekisho.Move.Chain.Gateways.{Steps-revoked}
use sekisho.Move.Chain.Events.{IsSound, Steps-IsSound}
use sekisho.Move.Chain.Receipts.{Verdict, verify-registered}

abbrev pub tx : TxContext
tx = record { sender = replicate 32 10; new_object = λ n. replicate 32 (100 + n) }

abbrev cap : CheckpointCap
cap = record { id = replicate 32 101 }

abbrev pub document : NitroAttestationDocument
document = record {
  pcrs =
      record { index = 2; value = 3 ∷ [] }
      ∷ record { index = 0; value = 1 ∷ [] }
      ∷ record { index = 1; value = 2 ∷ [] }
      ∷ [];
  nonce = some (replicate 32 10);
  public_key = some (7 ∷ 8 ∷ []);
  timestamp = 1700000000000;
}

abbrev pub entry : PcrSet
entry = record {
  pcr0 = 1 ∷ [];
  pcr1 = 2 ∷ [];
  pcr2 = 3 ∷ [];
  code_ref = lit "v1.0.0";
  revoked = false;
}

abbrev pub gateway : Gateway
gateway = record {
  id = replicate 32 100;
  pk = 7 ∷ 8 ∷ [];
  pcr_version = 0;
  operator = replicate 32 10;
  registered_at_ms = 1700000000000;
}

abbrev pub approving : Checkpoint
approving = record { id = replicate 32 100; approved_pcrs = entry ∷ [] }

abbrev pub revoking : Checkpoint
revoking = record { id = replicate 32 100; approved_pcrs = record entry { revoked = true } ∷ [] }

abbrev pub chain : Checkpoint → Chain
chain checkpoint = record { checkpoint = checkpoint; gateways = gateway ∷ []; events = [] }

-- A signature is the message itself.
abbrev accepts : Bytes → Bytes → Bytes → Bool
accepts sig pk message = same sig message

pub document_registers : register approving document tx ≡ ok gateway
unfolding register pcr_by_index validate_and_find_version find_matching_entry find_from borrow
document_registers = refl

register_iff_example :
    (register approving document tx ≡ ok gateway) ↔ Registers approving document tx gateway
register_iff_example = register_iff approving document tx gateway

blob-IsBlobId : IsBlobId (replicate 32 9)
blob-IsBlobId = record { sized = refl; in_range = replicate-AreBytes 32 9 (omega arith) }

pub receipt-HasBlobIds : HasBlobIds receipt
receipt-HasBlobIds = record {
  request_blob = blob-IsBlobId;
  upstream_request_blob = blob-IsBlobId;
  response_blob = blob-IsBlobId;
}

to_bytes-submitted_example :
    to_bytes (intent_message signed_at (submitted receipt))
    ≡ serialize_intent_message receipt signed_at
to_bytes-submitted_example = to_bytes-submitted receipt signed_at receipt-HasBlobIds

-- The calls: the publisher approves the version, the enclave is registered, and the version revoked.
up_to_registered : Steps accepts (published tx) (chain approving)
unfolding published init approve_pcrs
up_to_registered =
    next (next here (approved (published tx) cap (1 ∷ []) (2 ∷ []) (3 ∷ []) (lit "v1.0.0"))) (
      registered (record { checkpoint = approving; gateways = []; events = [] }) document tx gateway
        document_registers)

pub revocation :
    (ed25519_verify : Bytes → Bytes → Bytes → Bool)
    → Steps ed25519_verify (chain approving) (chain revoking)
unfolding revoke_pcrs set_revoked
revocation ed25519_verify = next here (revoked (chain approving) revoking cap 0 refl)

-- The version is approved once more.
approval :
    Steps accepts
      (chain revoking)
      (chain (approve_pcrs revoking cap (1 ∷ []) (2 ∷ []) (3 ∷ []) (lit "v1.0.1")).0)
approval = next here (approved (chain revoking) cap (1 ∷ []) (2 ∷ []) (3 ∷ []) (lit "v1.0.1"))

Steps-IsSound_example : IsSound accepts (chain approving)
Steps-IsSound_example = Steps-IsSound accepts tx (chain approving) up_to_registered

first_entry : find_matching_entry revoking (1 ∷ []) (2 ∷ []) (3 ∷ []) ≡ some 0
unfolding find_matching_entry find_from
first_entry = refl

revoked_entry : borrow revoking.approved_pcrs 0 ≡ ok (record entry { revoked = true })
unfolding borrow
revoked_entry = refl

Steps-revoked_example :
    let approved_again = (approve_pcrs revoking cap (1 ∷ []) (2 ∷ []) (3 ∷ []) (lit "v1.0.1")).0 in
    (verify accepts gateway approved_again 0 signed_at (submitted receipt) [] tx
      ≡ err revoked_gateway)
    × (validate_and_find_version approved_again (5 ∷ []) (5 ∷ []) (1 ∷ []) (2 ∷ []) (3 ∷ [])
        ≡ (if same (5 ∷ []) (5 ∷ []) then err pcrs_revoked else err nonce_not_sender))
Steps-revoked_example =
    Steps-revoked accepts (chain revoking) _ 0 (record entry { revoked = true }) approval
      revoked_entry refl gateway refl (1 ∷ []) (2 ∷ []) (3 ∷ []) first_entry 0 signed_at
      (submitted receipt) [] (5 ∷ []) (5 ∷ []) tx

abbrev pub signature : Bytes
signature = serialize_intent_message receipt signed_at

abbrev stored : StoredReceipt
unfolding stored_receipt
stored = stored_receipt hex receipt signed_at signature

stored-IsAttested : IsAttested external (replicate 32 7) stored
unfolding stored_receipt
stored-IsAttested = record {
  payload = receipt;
  timestamp_ms = signed_at;
  signature = signature;
  signed = refl;
  configured = refl;
  stored_form = refl;
}

same_message :
    (message sig : Bytes) → external.sign message ≡ ok sig → accepts sig (7 ∷ 8 ∷ []) message ≡ true
same_message message sig h = let e : message ≡ sig = cc h in rw e (same_refl sig)

verify-registered_example :
    Verdict external accepts
      (chain revoking)
      document
      gateway
      (replicate 32 7)
      stored
      stored-IsAttested
      1700000000001
      tx
unfolding stored-IsAttested
verify-registered_example =
    verify-registered external accepts (chain approving) (chain revoking) document tx gateway
      (7 ∷ 8 ∷ []) document_registers (revocation accepts) refl same_message (replicate 32 7) stored
      stored-IsAttested receipt-HasBlobIds 1700000000001 tx
