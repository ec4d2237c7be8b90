-- ===== src/Server/Handlers/Relays.antt =====
-- server.rs: that requests are served: a receipt is made whenever there is an answer to make it of.
pub mod Streamed
mod Runs
mod StreamRuns
use sekisho.Base.{ℕ, ◌-◌, true, false, none, some, ok, ◌≡◌, arith}
use sekisho.Text.{Str, Bytes}
use sekisho.Json.{Value}
use sekisho.Canonical.{CanonicalResponse, ProviderMeta}
use sekisho.Canonical.Serialize.{blob_id_of, request_value}
use sekisho.Providers.{UpstreamMeta}
use sekisho.External.{External}
use sekisho.Server.{AppState, json}
use sekisho.Server.Receipts.{with_upstream_meta, finish_non_streaming_ok}
use sekisho.Server.Surfaces.{Call, Send, Surface}
use sekisho.Server.Upstream.{answered, is_success, non_streaming_response}
use sekisho.Server.Handlers.{respond, check_policy, dispatch, handle}
use sekisho.Server.Handlers.Gate.{Admitted}
use sekisho.Server.Handlers.Commits.{Commits, finish_non_streaming_ok-Commits, Commits-release}

module _ (x : External) (to_vec_total : (v : Value) → (bytes : Bytes) × (x.to_vec v ≡ ok bytes))
    (sign_total : (message : Bytes) → (signature : Bytes) × (x.sign message ≡ ok signature))
    (surface : Surface) where
  -- A request that is admitted and wants no stream, and whose upstream answers with a success and a
  -- body that decodes, is answered with 200 and that very body, and its receipt is stored: signing
  -- and JSON writing, which are hypotheses, do not fail. The receipt has the request's id and blob,
  -- and the model, blob, counters and outcome of the response.
  pub handle-Commits :
      (call : Call) (state : AppState) (send : Send) (a : Admitted x surface call state)
      (request_blob : Bytes) (status : ℕ) (body : Value) (meta : UpstreamMeta)
      (response : CanonicalResponse) (provider_meta : ProviderMeta) (request_id : Str)
      → a.wants_stream ≡ false
      → blob_id_of x.hashing (request_value a.request) ≡ ok request_blob
      → surface.call_non_streaming send
          (surface.base_url (record state { permits = state.permits - 1 }))
          a.api_key
          a.raw
        ≡ ok (status, body, meta)
      → is_success status ≡ true
      → surface.to_canonical_response body ≡ ok (response, provider_meta, request_id)
      → let reply = handle x surface call state send in
        (reply.response.status ≡ 200)
        × (reply.response.body ≡ json body)
        × Commits x state reply.state
            (with_upstream_meta x a.receipt_id surface.provider surface.host request_blob
              request_blob meta)
            response
            (surface.outcome_for response.stop_reason)
  unfolding handle respond check_policy dispatch non_streaming_response
  handle-Commits call state send a request_blob status body meta response provider_meta request_id w
        q c k d =
      let ctx =
        with_upstream_meta x a.receipt_id surface.provider surface.host request_blob request_blob
          meta in
      let held = record state { permits = state.permits - 1 } in
      let reply = answered (
        finish_non_streaming_ok x call.clock held ctx body surface.to_canonical_response
          surface.outcome_for a.request.model) in
      let done =
        finish_non_streaming_ok-Commits x to_vec_total sign_total surface call.clock held ctx body
          a.request.model response provider_meta request_id d in
      rw
        (
          handle, a.authenticated, a.permitted, respond, a.parsed, q, a.resolved, check_policy,
          a.allowed, dispatch, a.configured, w, non_streaming_response, c, k,
        )
        (
          done.0,
          done.1,
          Commits-release x to_vec_total sign_total surface state reply ctx response _
              (ground (arith, a.permitted)) done.2,
        )
