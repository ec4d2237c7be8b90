-- ===== src/Server/Routes/Runs.antt =====
-- The router at a body that is too long.
use sekisho.Base.{
  true, false, ltb, ◌≤◌, ◌&&◌, ◌⊎◌, length, replicate, none, some, ok, err, Result, ℕ, ◌≡◌,
}
use sekisho.Text.{lit}
use sekisho.Fixtures.{external, state}
use sekisho.Server.{AppState}
use sekisho.Server.Surfaces.{Call, Send}
use sekisho.Providers.OpenAi
use sekisho.Providers.Anthropic
use sekisho.Server.Routes.{NautilusContext, AttestationBody, serve, rejected}
use sekisho.Server.Routes as Routes
use sekisho.Server.Routes.Limits.{is_inference, reads_body, serve-limits}

abbrev ctx : NautilusContext
ctx = record {
  public_key_hex = lit "00";
  sui_address = lit "0x1";
  attestation = λ _ _. ok (replicate 4 1);
  encode_hex = λ _. lit "01010101";
}

abbrev extract : Call → Result AttestationBody ℕ
extract _ = ok (record { nonce = none; user_data = none })

abbrev chat : OpenAi.Decoders
chat = record {
  request_fields = λ _. err (lit "no request");
  response = λ _. err (lit "no response");
  usage = λ _. err (lit "no usage");
}

abbrev claude : Anthropic.Decoders
claude = record {
  request_fields = λ _. err (lit "no request");
  response = λ _. err (lit "no response");
}

-- A body of four bytes, where one may have three.
abbrev small : AppState
small = record state { config = record (state.config) { max_body_bytes = 3 } }

abbrev call : Call
call = record {
  headers = record { authorization = some (some (lit "Bearer key")); nonce = none };
  body = replicate 4 b'{';
  clock = some 1700000000000;
  uuid = replicate 16 5;
}

abbrev refused : Send
refused _ = err (lit "connection refused")

serve-limits_example :
    ((((serve external ctx extract chat claude Routes.messages call small refused).state ≡ small)
        × ((serve external ctx extract chat claude Routes.messages call small refused).stream
            ≡ none))
      ⊎ ((is_inference Routes.messages ≡ true) × (length call.body ≤ small.config.max_body_bytes)))
    × (((serve external ctx extract chat claude Routes.messages call small refused).response
          ≡ rejected 413)
        ⊎ ((reads_body Routes.messages && ltb small.config.max_body_bytes (length call.body))
            ≡ false))
serve-limits_example =
    serve-limits external ctx extract chat claude Routes.messages call small refused
