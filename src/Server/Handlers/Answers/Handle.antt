-- ===== src/Server/Handlers/Answers/Handle.antt =====
-- server.rs: what the answers of the two handlers say of receipts, on every path.
use sekisho.Base.{
  ◌<◌, ℕ, ltb, ◌-◌, ◌+◌, Bool, none, some, Option-cases, Result-cases, inl, inr, ◌≡◌, refl,
  Bool-cases, ap, ◌∙◌, arith,
}
use sekisho.Text.{Str, Bytes, lit}
use sekisho.Json.{Value}
use sekisho.Canonical.{CanonicalRequest, upstream_error, policy_denied}
use sekisho.Canonical.Serialize.{blob_id_of, request_value}
use sekisho.Receipt.Stored.{ReceiptStore}
use sekisho.Providers.{ProviderError, error_text, HttpResponse}
use sekisho.Policy.Evaluate.{evaluate}
use sekisho.External.{External}
use sekisho.Server.{AppState, CallContext}
use sekisho.Server.Surfaces.{Call, Send, Surface}
use sekisho.Server.Upstream.{
  Reply, is_success, provider_failed, status_failed, begin_stream, non_streaming_response,
  stream_response,
}
use sekisho.Server.Handlers.{
  release, authenticate, resolve_receipt_id, dispatch, check_policy, policy_request, respond,
  handle,
}
use sekisho.Server.Handlers.Answers.{
  Answers, silent, receipted, streaming, unsigned, finish_error_receipt-Answers,
  finish_non_streaming_ok-Answers,
}

module _ (x : External) (surface : Surface) where
  provider_failed-Answers :
      (call : Call) (state : AppState) (receipt_id request_blob : Bytes) (model_hint : Str)
      (error : ProviderError)
      → Answers x state
          (provider_failed x surface call state receipt_id request_blob model_hint error)
  unfolding provider_failed
  provider_failed-Answers call state receipt_id request_blob model_hint error =
      finish_error_receipt-Answers x call.clock state _ model_hint upstream_error none
        (error_text error) 502 (lit "upstream_error") (inr (refl, refl))

  status_failed-Answers :
      (call : Call) (state : AppState) (ctx : CallContext) (model_hint : Str) (status : ℕ)
      (message : Str)
      → Answers x state (status_failed x surface call state ctx model_hint status message)
  unfolding status_failed
  status_failed-Answers call state ctx model_hint status message =
      finish_error_receipt-Answers x call.clock state ctx model_hint upstream_error (some status)
        message 502 (lit "upstream_error") (inr (refl, refl))

  begin_stream-Answers :
      (state : AppState) (ctx : CallContext) (model_hint : Str) (upstream : HttpResponse)
      → Answers x state (begin_stream x surface state ctx model_hint upstream)
  unfolding begin_stream
  begin_stream-Answers state ctx model_hint upstream =
      elim (Option-cases (x.header_value (x.hex_encode ctx.receipt_id))) [
        | inl n ↦ rw (begin_stream, n) (unsigned x 500 _ _ state)
        | inr (id, s) ↦ rw (begin_stream, s) (streaming _ id refl refl s refl)
      ]

  non_streaming_response-Answers :
      (call : Call) (state : AppState) (send : Send) (receipt_id request_blob : Bytes)
      (api_key : Str) (raw : Value) (model_hint : Str)
      → Answers x state (
          non_streaming_response x surface call state send receipt_id request_blob api_key raw
            model_hint)
  unfolding non_streaming_response
  non_streaming_response-Answers call state send receipt_id request_blob api_key raw model_hint =
      elim (Result-cases (surface.call_non_streaming send (surface.base_url state) api_key raw)) [
        | inr (e, c) ↦
            rw (non_streaming_response, c)
              (provider_failed-Answers call state receipt_id request_blob model_hint e)
        | inl ((status, body, meta), c) ↦ elim (Bool-cases (is_success status)) [
          | inl b ↦
              rw (non_streaming_response, c, b)
                (finish_non_streaming_ok-Answers x surface call.clock state _ body model_hint)
          | inr b ↦
              rw (non_streaming_response, c, b)
                (status_failed-Answers call state _ model_hint status _)
        ]
      ]

  stream_response-Answers :
      (call : Call) (state : AppState) (send : Send) (receipt_id request_blob : Bytes)
      (api_key : Str) (raw : Value) (model_hint : Str)
      → Answers x state
          (stream_response x surface call state send receipt_id request_blob api_key raw model_hint)
  unfolding stream_response
  stream_response-Answers call state send receipt_id request_blob api_key raw model_hint =
      elim (Result-cases (surface.start_streaming send (surface.base_url state) api_key raw)) [
        | inr (e, c) ↦
            rw (stream_response, c)
              (provider_failed-Answers call state receipt_id request_blob model_hint e)
        | inl ((upstream, body, meta), c) ↦ elim (Bool-cases (is_success upstream.status)) [
          | inl b ↦ rw (stream_response, c, b) (begin_stream-Answers state _ model_hint upstream)
          | inr b ↦
              rw (stream_response, c, b)
                (status_failed-Answers call state _ model_hint upstream.status _)
        ]
      ]

  dispatch-Answers :
      (call : Call) (state : AppState) (send : Send) (receipt_id request_blob : Bytes) (raw : Value)
      (wants_stream : Bool) (model_hint : Str)
      → Answers x state
          (dispatch x surface call state send receipt_id request_blob raw wants_stream model_hint)
  unfolding dispatch
  dispatch-Answers call state send receipt_id request_blob raw wants_stream model_hint =
      elim (Option-cases (surface.api_key state.config)) [
        | inl n ↦ rw (dispatch, n) (unsigned x 503 _ _ state)
        | inr (key, k) ↦ elim (Bool-cases wants_stream) [
          | inl b ↦
              rw (dispatch, k, b)
                (stream_response-Answers call state send receipt_id request_blob key raw model_hint)
          | inr b ↦
              rw (dispatch, k, b)
                (non_streaming_response-Answers call state send receipt_id request_blob key raw
                  model_hint)
        ]
      ]

  check_policy-Answers :
      (call : Call) (state : AppState) (send : Send) (caller_key : Str)
      (receipt_id request_blob : Bytes) (raw : Value) (wants_stream : Bool)
      (request : CanonicalRequest)
      → Answers x state (
          check_policy x surface call state send caller_key receipt_id request_blob raw wants_stream
            request)
  unfolding check_policy
  check_policy-Answers call state send caller_key receipt_id request_blob raw wants_stream request =
      elim (Result-cases
        (evaluate x.debug state.config.policy (policy_request x surface call caller_key request))) [
          | inr (denial, e) ↦
              rw (check_policy, e)
                (finish_error_receipt-Answers x call.clock state _ request.model policy_denied none
                  denial.reason 403 _ (inl (refl, refl)))
          | inl (name, e) ↦
              rw (check_policy, e)
                (dispatch-Answers call state send receipt_id request_blob raw wants_stream
                  request.model)
        ]

  pub respond-Answers :
      (call : Call) (state : AppState) (send : Send) (caller_key : Str)
      → Answers x state (respond x surface call state send caller_key)
  unfolding respond
  respond-Answers call state send caller_key =
      elim (Result-cases (surface.parse_request call.body)) [
        | inr (e, p) ↦ rw (respond, p) (unsigned x 400 _ _ state)
        | inl ((raw, wants_stream, request), p) ↦
            elim (Result-cases (blob_id_of x.hashing (request_value request))) [
              | inr (e, b) ↦ rw (respond, p, b) (unsigned x 500 _ e state)
              | inl (blob, b) ↦
                  elim (Result-cases (resolve_receipt_id x call.uuid call.headers.nonce)) [
                    | inr (message, r) ↦ rw (respond, p, b, r) (unsigned x 400 _ message state)
                    | inl (id, r) ↦
                        rw (respond, p, b, r)
                          (check_policy-Answers call state send caller_key id blob raw wants_stream
                            request)
                  ]
            ]
      ]

  pub given_back :
      (state s : AppState) (receipts : ReceiptStore)
      → 0 < state.permits
      → s ≡ record state { permits = state.permits - 1; receipts = receipts }
      → record s { permits = s.permits + 1 } ≡ record state { receipts = receipts }
  given_back state s receipts h e =
      ap {A = AppState} {B = AppState} (λ t. record t { permits = t.permits + 1 }) e
      ∙ ap (λ n. record state { permits = n; receipts = receipts }) {x = state.permits - 1 + 1}
          {y = state.permits} (omega arith)

  -- A permit that is taken and given back leaves the permits as they were.
  release-Answers :
      (state : AppState)
      → 0 < state.permits
      → (reply : Reply) → Answers x (record state { permits = state.permits - 1 }) reply
      → Answers x state (release reply)
  release-Answers state h reply (silent a b c) = silent a b (given_back state _ _ h c)
  release-Answers state h reply (receipted payload timestamp_ms signature s a b c g) =
      receipted payload timestamp_ms signature
        (record { signed = s.signed; configured = s.configured }) a b (given_back state _ _ h c) g
  release-Answers state h reply (streaming pending id a b c e) =
      streaming pending id a b c (given_back state _ _ h e)

  -- Every answer of a handler is of one of three kinds. It names no receipt and leaves the state as
  -- it was; or its header is the id of a receipt that was stored with it, signed, and under the
  -- configuration's hash, and says by its outcome that the policy denied the request if the status is
  -- 403, that the provider failed if it is 502, both without tokens, or else the status is 200; or
  -- it starts a stream, whose receipt's id the header already is. The permits and the configuration
  -- are the same afterwards.
  pub handle-Answers :
      (call : Call) (state : AppState) (send : Send)
      → Answers x state (handle x surface call state send)
  unfolding handle
  handle-Answers call state send = elim (Option-cases (authenticate x state call.headers)) [
    | inl n ↦ rw (handle, n) (unsigned x 401 _ _ state)
    | inr (caller_key, a) ↦ elim (Bool-cases (ltb 0 state.permits)) [
      | inr b ↦ rw (handle, a, b) (unsigned x 429 _ _ state)
      | inl b ↦
          rw (handle, a, b)
            (release-Answers state (ground arith) _ (respond-Answers call _ send caller_key))
    ]
  ]
