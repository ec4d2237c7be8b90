-- ===== src/Move/Checkpoint/Attested.antt =====
-- server.rs and checkpoint.move together: who registers with the documents that the gateway gives out.
use sekisho.Base.{ℕ, ◌≤◌, true, Option, none, some, Result, ok, err, ◌≡◌, refl, length}
use sekisho.Text.{Str, Bytes}
use sekisho.External.{External}
use sekisho.Server.{AppState}
use sekisho.Server.Surfaces.{Call, Send}
use sekisho.Providers.OpenAi
use sekisho.Providers.Anthropic
use sekisho.Server.Routes.{
  NautilusContext, AttestationBody, get_attestation, post_attestation, serve,
}
use sekisho.Server.Routes.Attestation.{attested, serve-get_attestation, serve-post_attestation}
use sekisho.Move.{nonce_not_sender, TxContext}
use sekisho.Move.Checkpoint.{Checkpoint, Gateway, NitroAttestationDocument, pcr_by_index, register}
use sekisho.Move.Checkpoint.Register.{Approved, register_iff}

-- An enclave's security module: a document that it makes says the key and the measurements of the
-- enclave, and the nonce that it was asked for. `load` is `load_nitro_attestation`, which reads it.
pub record Attests (ctx : NautilusContext) (load : Bytes → NitroAttestationDocument)
    (pk pcr0 pcr1 pcr2 : Bytes) : Type 0 where
  pub nonce :
      (nonce user_data : Option Bytes) (document : Bytes)
      → ctx.attestation nonce user_data ≡ ok document
      → (load document).nonce ≡ nonce
  pub key :
      (nonce user_data : Option Bytes) (document : Bytes)
      → ctx.attestation nonce user_data ≡ ok document
      → (load document).public_key ≡ some pk
  pub has_pcr0 :
      (nonce user_data : Option Bytes) (document : Bytes)
      → ctx.attestation nonce user_data ≡ ok document
      → pcr_by_index (load document).pcrs 0 ≡ ok pcr0
  pub has_pcr1 :
      (nonce user_data : Option Bytes) (document : Bytes)
      → ctx.attestation nonce user_data ≡ ok document
      → pcr_by_index (load document).pcrs 1 ≡ ok pcr1
  pub has_pcr2 :
      (nonce user_data : Option Bytes) (document : Bytes)
      → ctx.attestation nonce user_data ≡ ok document
      → pcr_by_index (load document).pcrs 2 ≡ ok pcr2

-- What an answer with a document makes of a sender on chain.
pub record Operates (checkpoint : Checkpoint) (document : NitroAttestationDocument) (pk : Bytes)
    (tx : TxContext) : Type 0 where
  pub gateway : Gateway
  pub registered : register checkpoint document tx ≡ ok gateway
  pub key : gateway.pk ≡ pk
  pub operator : gateway.operator ≡ tx.sender

module _ (x : External) (ctx : NautilusContext) (extract : Call → Result AttestationBody ℕ)
    (chat : OpenAi.Decoders) (anthropic : Anthropic.Decoders)
    (load : Bytes → NitroAttestationDocument) (pk pcr0 pcr1 pcr2 : Bytes) where
  register-unbound :
      (checkpoint : Checkpoint) (tx : TxContext) (document : NitroAttestationDocument)
      → pcr_by_index document.pcrs 0 ≡ ok pcr0
      → pcr_by_index document.pcrs 1 ≡ ok pcr1
      → pcr_by_index document.pcrs 2 ≡ ok pcr2
      → document.nonce ≡ none
      → register checkpoint document tx ≡ err nonce_not_sender
  unfolding register
  register-unbound checkpoint tx document a b c n = rw (register, a, b, c, n) refl

  -- The document of `GET /attestation` registers nobody. Anyone gets one from `POST /attestation` that
  -- names their own address, without a key of the gateway, and with it registers the enclave's key as
  -- a gateway that they operate, if the version of the enclave is approved: what binds the document to
  -- its sender binds it to whoever asked.
  pub serve-register :
      Attests ctx load pk pcr0 pcr1 pcr2
      → (checkpoint : Checkpoint) (version : ℕ)
      → Approved checkpoint.approved_pcrs pcr0 pcr1 pcr2 version
      → (tx : TxContext) (call : Call) (state : AppState) (send : Send) (text : Str)
        (public bound : Bytes)
      → ctx.attestation none none ≡ ok public
      → length call.body ≤ state.config.max_body_bytes
      → extract call ≡ ok (record { nonce = some text; user_data = none })
      → x.decode_hex text ≡ ok tx.sender
      → ctx.attestation (some tx.sender) none ≡ ok bound
      → ((serve x ctx extract chat anthropic get_attestation call state send).response
          ≡ attested ctx public)
        × (register checkpoint (load public) tx ≡ err nonce_not_sender)
        × ((serve x ctx extract chat anthropic (post_attestation true) call state send).response
            ≡ attested ctx bound)
        × Operates checkpoint (load bound) pk tx
  serve-register h checkpoint version approved tx call state send text public bound p fits e d a =
      let gateway : Gateway = record {
        id = tx.new_object 0;
        pk = pk;
        pcr_version = version;
        operator = tx.sender;
        registered_at_ms = (load bound).timestamp;
      } in
      (
        serve-get_attestation x ctx extract chat anthropic call state send public p,
        register-unbound checkpoint tx (load public) (h.has_pcr0 _ _ _ p) (h.has_pcr1 _ _ _ p)
            (h.has_pcr2 _ _ _ p) (h.nonce _ _ _ p),
        serve-post_attestation x ctx extract chat anthropic call state send text tx.sender bound
            fits e d a,
        record {
          gateway = gateway;
          registered = (register_iff checkpoint (load bound) tx gateway).1 (record {
            pcr0 = pcr0;
            pcr1 = pcr1;
            pcr2 = pcr2;
            has_pcr0 = h.has_pcr0 _ _ _ a;
            has_pcr1 = h.has_pcr1 _ _ _ a;
            has_pcr2 = h.has_pcr2 _ _ _ a;
            bound = h.nonce _ _ _ a;
            version = approved;
            key = h.key _ _ _ a;
            id = refl;
            operator = refl;
            registered_at_ms = refl;
          });
          key = refl;
          operator = refl;
        },
      )
