-- ===== src/Server/Handlers.antt =====
-- server.rs: the handlers of inference requests.
pub mod Answers
pub mod Gate
pub mod Streams
pub mod Reachable
pub mod Served
pub mod Nonce
pub mod Commits
pub mod Relays
mod Runs
mod Tests
use sekisho.Base.{
  suc, ◌-◌, ◌+◌, Bool, true, false, Option, none, some, Result, ok, err, if◌then◌else◌, ltb, ◌==◌,
  and_then, length,
}
use sekisho.Text.{Str, Bytes, lit, trim}
use sekisho.Json.{Value}
use sekisho.Canonical.{CanonicalRequest, policy_denied}
use sekisho.Canonical.Serialize.{blob_id_of, request_value}
use sekisho.Auth.{extract_bearer, identify_caller}
use sekisho.Policy.{EvaluationRequest}
use sekisho.Policy.Evaluate.{evaluate}
use sekisho.Providers.{error_text}
use sekisho.External.{External}
use sekisho.Server.{AppState, error_response}
use sekisho.Server.Receipts.{no_upstream_call, finish_error_receipt}
use sekisho.Server.Upstream.{Reply, answered, non_streaming_response, stream_response}
use sekisho.Server.Surfaces.{Header, Headers, Call, Send, Surface}

-- A permit of the semaphore, taken and given back.
abbrev pub acquire : AppState → Option AppState
acquire state =
    if ltb 0 state.permits then some (record state { permits = state.permits - 1 }) else none

abbrev pub release : Reply → Reply
release reply = record reply { state = record (reply.state) { permits = reply.state.permits + 1 } }

module _ (x : External) where
  unfoldable pub authenticate : AppState → Headers → Option Str
  authenticate state headers = and_then (and_then headers.authorization (λ h. h)) (λ header_value.
      and_then (extract_bearer header_value)
        (λ bearer. identify_caller x.ct_eq bearer state.config.caller_keys))

  -- `uuid` is the fresh one, used if the client sends no nonce.
  pub resolve_receipt_id : Bytes → Header → Result Bytes Str
  resolve_receipt_id uuid none = ok uuid
  resolve_receipt_id uuid (some none) = err (lit "x-sekisho-nonce must be ASCII hex")
  resolve_receipt_id uuid (some (some raw)) = elim (x.decode_hex (trim raw)) [
    | err _ ↦ err (lit "x-sekisho-nonce must be valid hex")
    | ok bytes ↦
        if length bytes == 16
        then ok bytes
        else err (lit "x-sekisho-nonce must be exactly 16 bytes (32 hex characters)")
  ]

  module _ (surface : Surface) where
    open surface use {provider, host}

    -- A handler after the policy.
    dispatch : Call → AppState → Send → Bytes → Bytes → Value → Bool → Str → Reply
    unfolding stream_response non_streaming_response
    dispatch call state send receipt_id request_blob raw_request wants_stream model_hint =
        elim (surface.api_key state.config) [
          | none ↦
              answered (error_response 503 (lit "provider_unavailable") surface.unconfigured, state)
          | some api_key ↦
              if wants_stream
              then stream_response x surface call state send receipt_id request_blob api_key
                  raw_request model_hint
              else non_streaming_response x surface call state send receipt_id request_blob api_key
                  raw_request model_hint
        ]

    -- What the policy is asked.
    abbrev pub policy_request : Call → Str → CanonicalRequest → EvaluationRequest
    policy_request call caller_key request = record {
      caller_key = caller_key;
      model = request.model;
      max_tokens = request.max_tokens;
      request_bytes = length call.body;
    }

    -- A handler after `resolve_receipt_id`.
    check_policy :
        Call → AppState → Send → Str → Bytes → Bytes → Value → Bool → CanonicalRequest → Reply
    unfolding dispatch
    check_policy call state send caller_key receipt_id request_blob raw_request wants_stream
          request =
        elim (evaluate x.debug state.config.policy (policy_request call caller_key request)) [
          | err denial ↦ answered (
              finish_error_receipt x call.clock state
                (no_upstream_call x receipt_id provider host request_blob) request.model
                policy_denied none denial.reason 403 (lit "policy_denied"))
          | ok _ ↦
              dispatch call state send receipt_id request_blob raw_request wants_stream
                request.model
        ]

    -- A handler that holds its permit.
    pub respond : Call → AppState → Send → Str → Reply
    unfolding check_policy
    respond call state send caller_key = elim (surface.parse_request call.body) [
      | err error ↦ answered (error_response 400 (lit "bad_request") (error_text error), state)
      | ok (raw_request, wants_stream, request) ↦
          elim (blob_id_of x.hashing (request_value request)) [
            | err e ↦ answered (error_response 500 (lit "internal_error") e, state)
            | ok request_blob ↦ elim (resolve_receipt_id call.uuid call.headers.nonce) [
              | err message ↦ answered (error_response 400 (lit "bad_request") message, state)
              | ok receipt_id ↦
                  check_policy call state send caller_key receipt_id request_blob raw_request
                    wants_stream request
            ]
          ]
    ]

    -- `chat_completions` and `messages`. The permit is dropped on every return.
    pub handle : Call → AppState → Send → Reply
    unfolding respond authenticate
    handle call state send = elim (authenticate state call.headers) [
      | none ↦
          answered
            (error_response 401 (lit "unauthorized") (lit "missing or invalid bearer key"), state)
      | some caller_key ↦ elim (acquire state) [
        | none ↦ answered (
          error_response 429 (lit "too_many_requests") (lit "too many concurrent requests"),
          state,
        )
        | some held ↦ release (respond call held send caller_key)
      ]
    ]
