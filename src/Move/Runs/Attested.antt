-- ===== src/Move/Runs/Attested.antt =====
-- An enclave that gives out its documents, and one who registers with them.
use sekisho.Base.{
  ℕ, true, [], ◌∷◌, Option, none, some, Result, ok, err, ◌≡◌, refl, arith, replicate,
}
use sekisho.Text.{Bytes, lit}
use sekisho.External.{External}
use sekisho.Fixtures.{external, state}
use sekisho.Server.Surfaces.{Call, Send}
use sekisho.Providers.OpenAi
use sekisho.Providers.Anthropic
use sekisho.Server.Routes.{
  NautilusContext, AttestationBody, get_attestation, post_attestation, serve,
}
use sekisho.Server.Routes.Attestation.{attested}
use sekisho.Move.{nonce_not_sender}
use sekisho.Move.Checkpoint.{NitroAttestationDocument, borrow, pcr_by_index, register}
use sekisho.Move.Checkpoint.Register.{Approved}
use sekisho.Move.Checkpoint.Attested.{Attests, Operates, serve-register}
use sekisho.Move.Runs.{tx, entry, document, approving}

-- The toy format of a document is its nonce.
abbrev written : Option Bytes → Bytes
written none = []
written (some nonce) = 1 ∷ nonce

abbrev read : Bytes → Option Bytes
read [] = none
read (_ ∷ nonce) = some nonce

abbrev ctx : NautilusContext
ctx = record {
  public_key_hex = lit "0708";
  sui_address = lit "0x1";
  attestation = λ nonce _. ok (written nonce);
  encode_hex = λ _. lit "00";
}

abbrev load : Bytes → NitroAttestationDocument
load bytes = record document { nonce = read bytes }

read-written : (nonce : Option Bytes) → read (written nonce) ≡ nonce
read-written none = refl
read-written (some nonce) = refl

ctx-Attests : Attests ctx load (7 ∷ 8 ∷ []) (1 ∷ []) (2 ∷ []) (3 ∷ [])
unfolding pcr_by_index
ctx-Attests = record {
  nonce = λ nonce user_data d h. cc (h, read-written nonce);
  key = λ nonce user_data d h. refl;
  has_pcr0 = λ nonce user_data d h. refl;
  has_pcr1 = λ nonce user_data d h. refl;
  has_pcr2 = λ nonce user_data d h. refl;
}

approving-Approved : Approved approving.approved_pcrs (1 ∷ []) (2 ∷ []) (3 ∷ []) 0
unfolding borrow
approving-Approved = record {
  first = record {
    entry = entry;
    found = refl;
    has_pcr0 = refl;
    has_pcr1 = refl;
    has_pcr2 = refl;
    first = λ earlier e lt b. absurd (omega arith);
  };
  current = refl;
}

abbrev sender_hex : External
sender_hex = record external { decode_hex = λ _. ok (replicate 32 10) }

-- A request of someone without a key.
abbrev call : Call
call = record {
  headers = record { authorization = none; nonce = none };
  body = lit "{}";
  clock = none;
  uuid = replicate 16 5;
}

abbrev send : Send
send _ = err (lit "no upstream")

abbrev extract : Call → Result AttestationBody ℕ
extract _ = ok (record { nonce = some (lit "0a0a"); user_data = none })

abbrev chat : OpenAi.Decoders
chat = record {
  request_fields = λ _. err (lit "no request");
  response = λ _. err (lit "no response");
  usage = λ _. err (lit "no usage");
}

abbrev claude : Anthropic.Decoders
claude = record {
  request_fields = λ _. err (lit "no request");
  response = λ _. err (lit "no response");
}

serve-register_example :
    ((serve sender_hex ctx extract chat claude get_attestation call state send).response
      ≡ attested ctx [])
    × (register approving (load []) tx ≡ err nonce_not_sender)
    × ((serve sender_hex ctx extract chat claude (post_attestation true) call state send).response
        ≡ attested ctx (1 ∷ replicate 32 10))
    × Operates approving (load (1 ∷ replicate 32 10)) (7 ∷ 8 ∷ []) tx
serve-register_example =
    serve-register sender_hex ctx extract chat claude load (7 ∷ 8 ∷ []) (1 ∷ []) (2 ∷ []) (3 ∷ [])
      ctx-Attests approving 0 approving-Approved tx call state send (lit "0a0a") []
      (1 ∷ replicate 32 10) refl (omega arith) refl refl refl
