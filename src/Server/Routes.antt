-- ===== src/Server/Routes.antt =====
-- server.rs: the routes, the body limit, and the routes that make no receipt.
pub mod Attestation
pub mod Limits
mod Bodies
mod Runs
use sekisho.Base.{
  ℕ, Bool, true, false, List, [], ◌∷◌, Option, none, some, Result, ok, err, if◌then◌else◌, ltb,
  length,
}
use sekisho.Text.{Str, Bytes, lit}
use sekisho.Json.{Value, string, object, object_of}
use sekisho.External.{External}
use sekisho.Server.{AppState, Response, json, rejection, error_response, get_receipt}
use sekisho.Server.Surfaces.{Call, Send}
use sekisho.Server.Surfaces as Surfaces
use sekisho.Providers.OpenAi
use sekisho.Providers.Anthropic
use sekisho.Server.Upstream.{Reply, Pending, answered, poll_stream}
use sekisho.Server.Handlers.{handle}

-- nautilus's context: the enclave's key and address, the attestation of a nonce and user data by the
-- security module, and its hex.
pub record NautilusContext : Type 0 where
  pub public_key_hex : Str
  pub sui_address : Str
  pub attestation : Option Bytes → Option Bytes → Result Bytes Str
  pub encode_hex : Bytes → Str

-- `AttestationBody`.
pub record AttestationBody : Type 0 where
  pub nonce : Option Str
  pub user_data : Option Str

-- The routes of `build_router`. A request with an attestation body says whether its content type is
-- JSON; `no_route` is a path or a method that the router does not have.
pub data Route : Type 0 where
  health_check get_attestation chat_completions messages : Route
  post_attestation : Bool → Route
  get_receipt_route : Str → Route
  no_route : ℕ → Route

abbrev json_response : List (Str × Value) → Response
json_response fields = record {
  status = 200;
  body = json (object (object_of fields));
  receipt_header = none;
}

-- `HealthCheckBody`.
health_check_body : NautilusContext → Response
health_check_body ctx =
    json_response
      ((lit "pk", string ctx.public_key_hex) ∷ (lit "address", string ctx.sui_address) ∷ [])

-- The end of both attestation handlers.
attestation_response : NautilusContext → Result Bytes Str → Response
unfolding error_response
attestation_response ctx (ok document) = json_response (
    (lit "attestation", string (ctx.encode_hex document))
    ∷ (lit "public_key", string ctx.public_key_hex)
    ∷ [])
attestation_response ctx (err e) = error_response 500 (lit "internal_error") e

-- `GET /attestation`.
get_attestation_body : NautilusContext → Response
unfolding attestation_response
get_attestation_body ctx = attestation_response ctx (ctx.attestation none none)

-- An extractor's answer with a status.
abbrev pub rejected : ℕ → Response
rejected status = record { status = status; body = rejection; receipt_header = none }

module _ (x : External) where
  decode_optional_hex : Option Str → Result (Option Bytes) Str
  decode_optional_hex none = ok none
  decode_optional_hex (some text) = elim (x.decode_hex text) [
    | ok bytes ↦ ok (some bytes)
    | err e ↦ err e
  ]

  module _ (ctx : NautilusContext) where
    -- `POST /attestation`, behind its extractor.
    post_attestation_body : AttestationBody → Response
    unfolding decode_optional_hex attestation_response error_response
    post_attestation_body body = elim (decode_optional_hex body.nonce) [
      | err message ↦ error_response 400 (lit "bad_request") message
      | ok nonce ↦ elim (decode_optional_hex body.user_data) [
        | err message ↦ error_response 400 (lit "bad_request") message
        | ok user_data ↦ attestation_response ctx (ctx.attestation nonce user_data)
      ]
    ]

    -- `extract` is axum's `Json`: the body of an attestation request, or the status of its refusal.
    module _ (extract : Call → Result AttestationBody ℕ) (chat_decoders : OpenAi.Decoders)
        (messages_decoders : Anthropic.Decoders) where
      -- The two handlers, and the bodies of the streams that they leave behind.
      chat_completions_handler : Call → AppState → Send → Reply
      chat_completions_handler = handle x (Surfaces.chat_completions x chat_decoders)

      messages_handler : Call → AppState → Send → Reply
      messages_handler = handle x (Surfaces.messages x messages_decoders)

      openai_stream_body : Option ℕ → AppState → Pending → Option (List Bytes × AppState)
      openai_stream_body = poll_stream x (Surfaces.chat_completions x chat_decoders)

      anthropic_stream_body : Option ℕ → AppState → Pending → Option (List Bytes × AppState)
      anthropic_stream_body = poll_stream x (Surfaces.messages x messages_decoders)

      -- `DefaultBodyLimit::max`: an extractor of the body turns a longer one away, before its handler
      -- runs.
      within_limit : AppState → Call → Reply → Reply
      within_limit state call reply =
          if ltb state.config.max_body_bytes (length call.body)
          then answered (rejected 413, state)
          else reply

      abbrev extracted : Result AttestationBody ℕ → Response
      unfolding post_attestation_body
      extracted (ok body) = post_attestation_body body
      extracted (err status) = rejected status

      -- The router that `build_router` makes.
      pub serve : Route → Call → AppState → Send → Reply
      unfolding within_limit health_check_body get_attestation_body get_receipt
          chat_completions_handler messages_handler
      serve health_check call state send = answered (health_check_body ctx, state)
      serve get_attestation call state send = answered (get_attestation_body ctx, state)
      serve (post_attestation false) call state send = answered (rejected 415, state)
      serve (post_attestation true) call state send =
          within_limit state call (answered (extracted (extract call), state))
      serve chat_completions call state send =
          within_limit state call (chat_completions_handler call state send)
      serve messages call state send = within_limit state call (messages_handler call state send)
      serve (get_receipt_route id) call state send = answered (get_receipt state id, state)
      serve (no_route status) call state send = answered (rejected status, state)

      -- The body of the stream that a request leaves behind, polled to its end; the other routes leave
      -- none.
      pub serve_body : Route → Option ℕ → AppState → Pending → Option (List Bytes × AppState)
      unfolding openai_stream_body anthropic_stream_body
      serve_body chat_completions clock state pending = openai_stream_body clock state pending
      serve_body messages clock state pending = anthropic_stream_body clock state pending
      serve_body _ clock state pending = some ([], state)
