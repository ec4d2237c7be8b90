-- ===== src/Server/Handlers/Relays/Streamed.antt =====
-- server.rs: a stream from its request to its receipt.
use sekisho.Base.{
  ℕ, ltb, ◌-◌, ◌+◌, Bool, true, List, Option, some, ok, ◌≡◌, refl, ap, if◌then◌else◌, arith,
  map_option,
}
use sekisho.Text.{Str, Bytes}
use sekisho.Json.{Value}
use sekisho.Canonical.{CanonicalResponse, ProviderMeta, upstream_error}
use sekisho.Canonical.Serialize.{blob_id_of, request_value}
use sekisho.Providers.{UpstreamMeta, HttpResponse}
use sekisho.External.{External}
use sekisho.Server.{AppState, event_stream}
use sekisho.Server.Receipts.{with_upstream_meta}
use sekisho.Server.Surfaces.{Call, Send, Surface}
use sekisho.Server.Upstream.{
  Pending, dispatched_blob, is_success, stream_response, begin_stream, poll_stream,
}
use sekisho.Server.Handlers.{respond, check_policy, dispatch, handle}
use sekisho.Server.Handlers.Gate.{Admitted}
use sekisho.Server.Handlers.Commits.{Commits, poll_stream-Commits}

module _ (x : External) (to_vec_total : (v : Value) → (bytes : Bytes) × (x.to_vec v ≡ ok bytes))
    (sign_total : (message : Bytes) → (signature : Bytes) × (x.sign message ≡ ok signature))
    (surface : Surface) where
  same_permits :
      (state : AppState)
      → ltb 0 state.permits ≡ true
      → record state { permits = state.permits - 1 + 1 } ≡ state
  same_permits state h =
      ap {A = ℕ} {B = AppState} (λ n. record state { permits = n }) (ground (arith, h))

  -- A request that is admitted and wants a stream, and whose upstream answers with a success, is
  -- answered with 200, an event stream and the id of a receipt, and leaves the state as it was; the
  -- stream's body, in whatever state it is polled later, passes the chunks on and stores the receipt of
  -- that id: if the chunks can be assembled, and signing and JSON writing do not fail. The receipt says
  -- that the provider failed exactly if the transport did, and else what the stop reason says, also
  -- where the provider reports an error by an event of the stream.
  pub handle-stream-Commits :
      (call : Call) (state later : AppState) (send : Send) (a : Admitted x surface call state)
      (request_blob : Bytes) (upstream : HttpResponse) (dispatched : Option Value)
      (meta : UpstreamMeta) (id : Str) (response : CanonicalResponse) (provider_meta : ProviderMeta)
      (request_id : Str) (passed_on : List Bytes) (failed : Bool) (clock : Option ℕ)
      → a.wants_stream ≡ true
      → blob_id_of x.hashing (request_value a.request) ≡ ok request_blob
      → surface.start_streaming send
          (surface.base_url (record state { permits = state.permits - 1 }))
          a.api_key
          a.raw
        ≡ ok (upstream, dispatched, meta)
      → is_success upstream.status ≡ true
      → x.header_value (x.hex_encode a.receipt_id) ≡ some id
      → surface.assemble upstream.bytes_stream a.request.model
        ≡ (some (response, provider_meta, request_id), passed_on, failed)
      → let reply = handle x surface call state send in
        (reply.response ≡ record { status = 200; body = event_stream; receipt_header = some id })
        × (reply.state ≡ state)
        × (pending : Pending) × (reply.stream ≡ some pending)
        × (pending.ctx.receipt_id ≡ a.receipt_id)
        × (pending.ctx.request_blob ≡ request_blob)
        × (next : AppState) × (poll_stream x surface clock later pending ≡ some (passed_on, next))
        × Commits x later next pending.ctx response
            (if failed then upstream_error else surface.outcome_for response.stop_reason)
  unfolding handle respond check_policy dispatch stream_response begin_stream with_upstream_meta
  handle-stream-Commits call state later send a request_blob upstream dispatched meta id response
        provider_meta request_id passed_on failed clock w q c k header d =
      let ctx =
        with_upstream_meta x a.receipt_id surface.provider surface.host request_blob
          (dispatched_blob (map_option (blob_id_of x.hashing) dispatched) request_blob) meta in
      let pending : Pending = record {
        ctx = ctx;
        model_hint = a.request.model;
        upstream = upstream.bytes_stream;
      } in
      let (next, polled, commits) =
        poll_stream-Commits x to_vec_total sign_total surface clock later pending response
          provider_meta request_id passed_on failed d in
      rw
        (
          handle, a.authenticated, a.permitted, respond, a.parsed, q, a.resolved, check_policy,
          a.allowed, dispatch, a.configured, w, stream_response, c, k, begin_stream, header,
        )
        (refl, same_permits state a.permitted, pending, refl, refl, refl, next, polled, commits)
