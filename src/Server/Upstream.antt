-- ===== src/Server/Upstream.antt =====
-- server.rs: what a handler makes of an upstream's answer, and the streams that it leaves behind.
use sekisho.Base.{
  ℕ, ◌&&◌, Bool, not, List, [], Option, none, some, Result, ok, err, if◌then◌else◌, ltb, leb,
  map_option,
}
use sekisho.Text.{Str, Bytes, lit}
use sekisho.Json.{Value}
use sekisho.Canonical.{upstream_error}
use sekisho.Canonical.Serialize.{sha256_of, blob_id_of, response_value, meta_value}
use sekisho.Providers.{ProviderError, error_text, HttpResponse}
use sekisho.External.{External}
use sekisho.Server.{AppState, Response, event_stream, error_response, CallContext}
use sekisho.Server.Receipts.{
  no_upstream_call, with_upstream_meta, response_parts, sign_and_store, finish_error_receipt,
  finish_non_streaming_ok,
}
use sekisho.Server.Surfaces.{Call, Send, Decoded, Surface}

-- A stream whose headers are answered and whose body is still to be polled.
pub record Pending : Type 0 where
  pub ctx : CallContext
  pub model_hint : Str
  pub upstream : List (Result Bytes Str)

pub record Reply : Type 0 where
  pub response : Response
  pub state : AppState
  pub stream : Option Pending

abbrev pub answered : Response × AppState → Reply
answered (response, state) = record { response = response; state = state; stream = none }

unfoldable pub is_success : ℕ → Bool
is_success status = leb 200 status && ltb status 300

-- `upstream_request_blob` of a stream: of what is dispatched, if the provider changes the request.
abbrev pub dispatched_blob : Option (Result Bytes Str) → Bytes → Bytes
dispatched_blob (some (ok blob)) request_blob = blob
dispatched_blob _ request_blob = request_blob

module _ (x : External) (surface : Surface) where
  open surface use {provider, host}

  -- The receipt of a call that ended in a `ProviderError`.
  unfoldable pub provider_failed : Call → AppState → Bytes → Bytes → Str → ProviderError → Reply
  provider_failed call state receipt_id request_blob model_hint error = answered (
      finish_error_receipt x call.clock state
        (no_upstream_call x receipt_id provider host request_blob) model_hint upstream_error none
        (error_text error) 502 (lit "upstream_error"))

  -- The receipt of an answer whose status is no success.
  unfoldable pub status_failed : Call → AppState → CallContext → Str → ℕ → Str → Reply
  status_failed call state ctx model_hint status message = answered (
      finish_error_receipt x call.clock state ctx model_hint upstream_error (some status) message
        502 (lit "upstream_error"))

  -- The `match` on `call_non_streaming`.
  unfoldable pub non_streaming_response :
      Call → AppState → Send → Bytes → Bytes → Str → Value → Str → Reply
  unfolding provider_failed status_failed is_success
  non_streaming_response call state send receipt_id request_blob api_key raw_request model_hint =
      elim (surface.call_non_streaming send (surface.base_url state) api_key raw_request) [
        | err error ↦ provider_failed call state receipt_id request_blob model_hint error
        | ok (status, response_body, meta) ↦
            let ctx =
              with_upstream_meta x receipt_id provider host request_blob request_blob meta in
            if is_success status
            then answered (
                finish_non_streaming_ok x call.clock state ctx response_body
                  surface.to_canonical_response surface.outcome_for model_hint)
            else status_failed call state ctx model_hint status (x.to_text response_body)
      ]

  -- The end of both stream responses: the builder's answer, and the body that is still to come.
  unfoldable pub begin_stream : AppState → CallContext → Str → HttpResponse → Reply
  begin_stream state ctx model_hint upstream = elim (x.header_value (x.hex_encode ctx.receipt_id)) [
    | none ↦ answered (
      error_response 500 (lit "internal_error") (lit "failed to build streaming response"),
      state,
    )
    | some id ↦ record {
      response = record { status = 200; body = event_stream; receipt_header = some id };
      state = state;
      stream =
          some (record { ctx = ctx; model_hint = model_hint; upstream = upstream.bytes_stream });
    }
  ]

  -- `openai_stream_response` and `anthropic_stream_response`.
  unfoldable pub stream_response :
      Call → AppState → Send → Bytes → Bytes → Str → Value → Str → Reply
  unfolding provider_failed status_failed is_success begin_stream
  stream_response call state send receipt_id request_blob api_key raw_request model_hint =
      elim (surface.start_streaming send (surface.base_url state) api_key raw_request) [
        | err error ↦ provider_failed call state receipt_id request_blob model_hint error
        | ok (upstream, dispatched_body, meta) ↦
            let ctx =
              with_upstream_meta x receipt_id provider host request_blob
                (dispatched_blob (map_option (blob_id_of x.hashing) dispatched_body) request_blob)
                meta in
            if not (is_success upstream.status)
            then status_failed call state ctx model_hint upstream.status
                (elim upstream.text [ ok t ↦ t | err _ ↦ [] ])
            else begin_stream state ctx model_hint upstream
      ]

  -- The receipt at the end of a stream.
  unfoldable pub sign_stream : Option ℕ → AppState → Pending → Decoded → Bool → AppState
  sign_stream clock state pending (response, meta, request_id) failed =
      elim (blob_id_of x.hashing (response_value response)) [
        | err _ ↦ state
        | ok response_blob ↦ elim (sha256_of x.hashing (meta_value meta)) [
          | err _ ↦ state
          | ok provider_meta_hash ↦
              (sign_and_store x clock state (
                response_parts x pending.ctx response request_id
                  (if failed then upstream_error else surface.outcome_for response.stop_reason)
                  response_blob provider_meta_hash)).1
        ]
      ]

  unfoldable pub end_stream :
      Option ℕ
      → AppState
      → Pending
      → Option Decoded × List Bytes × Bool
      → Option (List Bytes × AppState)
  unfolding sign_stream
  end_stream clock state pending (none, passed_on, failed) = none
  end_stream clock state pending (some decoded, passed_on, failed) =
      some (passed_on, sign_stream clock state pending decoded failed)

  -- A stream's body, polled to its end: the chunks passed on and the state after the receipt is
  -- stored, or `none` where the process ends in the accumulator. A client that goes away leaves it unpolled.
  unfoldable pub poll_stream : Option ℕ → AppState → Pending → Option (List Bytes × AppState)
  unfolding end_stream
  poll_stream clock state pending =
      end_stream clock state pending (surface.assemble pending.upstream pending.model_hint)
