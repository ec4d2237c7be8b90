-- ===== src/Server/Routes/Attestation.antt =====
-- server.rs: what the attestation routes answer.
use sekisho.Base.{
  ℕ, ◌≤◌, true, false, [], ◌∷◌, none, some, Result, ok, ◌≡◌, refl, ltb, length, arith,
}
use sekisho.Text.{Str, Bytes, lit}
use sekisho.Json.{string, object, object_of}
use sekisho.External.{External}
use sekisho.Server.{AppState, Response, json}
use sekisho.Server.Surfaces.{Call, Send}
use sekisho.Providers.OpenAi
use sekisho.Providers.Anthropic
use sekisho.Server.Routes.{
  NautilusContext, AttestationBody, get_attestation, post_attestation, attestation_response,
  get_attestation_body, decode_optional_hex, post_attestation_body, within_limit, serve,
}

-- The answer with a document.
abbrev pub attested : NautilusContext → Bytes → Response
attested ctx document = record {
  status = 200;
  body = json (
      object (
        object_of (
          (lit "attestation", string (ctx.encode_hex document))
          ∷ (lit "public_key", string ctx.public_key_hex)
          ∷ [])));
  receipt_header = none;
}

module _ (x : External) (ctx : NautilusContext) (extract : Call → Result AttestationBody ℕ)
    (chat : OpenAi.Decoders) (anthropic : Anthropic.Decoders) where
  pub serve-get_attestation :
      (call : Call) (state : AppState) (send : Send) (document : Bytes)
      → ctx.attestation none none ≡ ok document
      → (serve x ctx extract chat anthropic get_attestation call state send).response
        ≡ attested ctx document
  unfolding serve get_attestation_body attestation_response
  serve-get_attestation call state send document h = rw h refl

  -- A document with a nonce is made for whoever asks: no header is read.
  pub serve-post_attestation :
      (call : Call) (state : AppState) (send : Send) (text : Str) (nonce document : Bytes)
      → length call.body ≤ state.config.max_body_bytes
      → extract call ≡ ok (record { nonce = some text; user_data = none })
      → x.decode_hex text ≡ ok nonce
      → ctx.attestation (some nonce) none ≡ ok document
      → (serve x ctx extract chat anthropic (post_attestation true) call state send).response
        ≡ attested ctx document
  unfolding serve within_limit post_attestation_body decode_optional_hex attestation_response
  serve-post_attestation call state send text nonce document fits e d a =
      let within : ltb state.config.max_body_bytes (length call.body) ≡ false = ground arith in
      rw (serve, within_limit, within, e, post_attestation_body, decode_optional_hex, d, a) refl
