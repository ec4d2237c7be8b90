-- ===== src/Server/Handlers/Commits.antt =====
-- server.rs: the receipt of a response is made, with and without a stream.
use sekisho.Base.{ℕ, ◌<◌, ◌-◌, Bool, List, Option, none, some, ok, ◌≡◌, refl, if◌then◌else◌, arith}
use sekisho.Text.{Str, Bytes}
use sekisho.Json.{Value}
use sekisho.Canonical.{CanonicalResponse, ProviderMeta, Outcome, as_u8, upstream_error}
use sekisho.Canonical.Serialize.{
  sha256_of, blob_id_of, compute_blob_id_bytes, response_value, meta_value,
}
use sekisho.Receipt.Stored.{StoredReceipt, stored_receipt}
use sekisho.Receipt.{Receipt, serialize_intent_message}
use sekisho.External.{External}
use sekisho.Server.{AppState, Response, CallContext, json, current_timestamp_ms}
use sekisho.Server.Receipts.{
  finish_non_streaming_ok, response_parts, sign_and_store, store_signed, receipt_of,
  signed_response, insert_receipt_header,
}
use sekisho.Server.Surfaces.{Surface}
use sekisho.Server.Upstream.{Pending, Reply, sign_stream, end_stream, poll_stream}
use sekisho.Server.Handlers.{release}
use sekisho.Server.Handlers.Answers.{IsSigned, stored_in}
use sekisho.Server.Handlers.Answers.Handle.{given_back}

-- A state with one more receipt: signed, of a response with its own counters, and with an outcome.
pub record Commits (x : External) (state next : AppState) (ctx : CallContext)
    (response : CanonicalResponse) (outcome : Outcome) : Type 0 where
  pub payload : Receipt
  pub timestamp_ms : ℕ
  pub signature : Bytes
  pub signed : IsSigned x state payload timestamp_ms signature
  pub stored : next ≡ stored_in x state payload timestamp_ms signature
  pub identified : payload.receipt_id ≡ ctx.receipt_id
  pub requested : payload.request_blob ≡ ctx.request_blob
  pub responded : blob_id_of x.hashing (response_value response) ≡ ok payload.response_blob
  pub model : payload.model_id ≡ response.model
  pub input_tokens : payload.input_tokens ≡ response.usage.input_tokens
  pub cache_creation_tokens : payload.cache_creation_tokens ≡ response.usage.cache_creation_tokens
  pub cache_read_tokens : payload.cache_read_tokens ≡ response.usage.cache_read_tokens
  pub output_tokens : payload.output_tokens ≡ response.usage.output_tokens
  pub outcome_code : payload.outcome ≡ as_u8 outcome

module _ (x : External) (to_vec_total : (v : Value) → (bytes : Bytes) × (x.to_vec v ≡ ok bytes))
    (sign_total : (message : Bytes) → (signature : Bytes) × (x.sign message ≡ ok signature)) where
  blob_total : (v : Value) → (blob : Bytes) × (blob_id_of x.hashing v ≡ ok blob)
  unfolding blob_id_of
  blob_total v =
      let (bytes, e) = to_vec_total v in
      (compute_blob_id_bytes x.hashing bytes, rw (blob_id_of, e) refl)

  hash_total : (v : Value) → (hash : Bytes) × (sha256_of x.hashing v ≡ ok hash)
  unfolding sha256_of
  hash_total v = let (bytes, e) = to_vec_total v in (x.sha256 bytes, rw (sha256_of, e) refl)

  -- Signing the receipt of a response stores it.
  response_signed :
      (clock : Option ℕ) (state : AppState) (ctx : CallContext) (response : CanonicalResponse)
      (request_id : Str) (outcome : Outcome) (blob hash : Bytes)
      → blob_id_of x.hashing (response_value response) ≡ ok blob
      → (stored : StoredReceipt) × (next : AppState) × (sign_and_store x clock state
            (response_parts x ctx response request_id outcome blob hash)
          ≡ (ok stored, next))
        × Commits x state next ctx response outcome
  unfolding sign_and_store store_signed response_parts receipt_of
  response_signed clock state ctx response request_id outcome blob hash b =
      let payload =
        receipt_of x state.config (response_parts x ctx response request_id outcome blob hash) in
      let timestamp_ms = current_timestamp_ms clock in
      let (signature, s) = sign_total (serialize_intent_message payload timestamp_ms) in
      (
        stored_receipt x.hex_encode payload timestamp_ms signature,
        stored_in x state payload timestamp_ms signature,
        rw (sign_and_store, s) refl,
        record {
          payload = payload;
          timestamp_ms = timestamp_ms;
          signature = signature;
          signed = record { signed = s; configured = refl };
          stored = refl;
          identified = refl;
          requested = refl;
          responded = b;
          model = refl;
          input_tokens = refl;
          cache_creation_tokens = refl;
          cache_read_tokens = refl;
          output_tokens = refl;
          outcome_code = refl;
        },
      )

  same_answer :
      (response : Response) (id : Str)
      → ((insert_receipt_header x response id).status ≡ response.status)
        × ((insert_receipt_header x response id).body ≡ response.body)
  unfolding insert_receipt_header
  same_answer response id = ground arith

  module _ (surface : Surface) where
    sign_stream-Commits :
        (clock : Option ℕ) (state : AppState) (pending : Pending) (response : CanonicalResponse)
        (meta : ProviderMeta) (request_id : Str) (failed : Bool)
        → Commits x state
            (sign_stream x surface clock state pending (response, meta, request_id) failed)
            pending.ctx
            response
            (if failed then upstream_error else surface.outcome_for response.stop_reason)
    unfolding sign_stream
    sign_stream-Commits clock state pending response meta request_id failed =
        let (blob, b) = blob_total (response_value response) in
        let (hash, m) = hash_total (meta_value meta) in
        let (stored, next, e, c) =
          response_signed clock state pending.ctx response request_id
            (if failed then upstream_error else surface.outcome_for response.stop_reason) blob hash
            b in
        rw (sign_stream, b, m, e) c

    -- A stream whose chunks can be assembled always ends with its receipt, and the client gets the
    -- chunks: signing and JSON writing, which are hypotheses, do not fail. The receipt has the id of
    -- the stream, the assembled response's model, blob and counters, and says that the provider
    -- failed exactly if the transport did, or else what the response's end says.
    pub poll_stream-Commits :
        (clock : Option ℕ) (state : AppState) (pending : Pending) (response : CanonicalResponse)
        (meta : ProviderMeta) (request_id : Str) (passed_on : List Bytes) (failed : Bool)
        → surface.assemble pending.upstream pending.model_hint
          ≡ (some (response, meta, request_id), passed_on, failed)
        → (next : AppState) × (poll_stream x surface clock state pending ≡ some (passed_on, next))
          × Commits x state next pending.ctx response
              (if failed then upstream_error else surface.outcome_for response.stop_reason)
    unfolding poll_stream end_stream
    poll_stream-Commits clock state pending response meta request_id passed_on failed h = (
      sign_stream x surface clock state pending (response, meta, request_id) failed,
      rw (poll_stream, h) refl,
      sign_stream-Commits clock state pending response meta request_id failed,
    )

    -- What a handler makes of a body that decodes.
    pub finish_non_streaming_ok-Commits :
        (clock : Option ℕ) (state : AppState) (ctx : CallContext) (body : Value) (model_hint : Str)
        (response : CanonicalResponse) (meta : ProviderMeta) (request_id : Str)
        → surface.to_canonical_response body ≡ ok (response, meta, request_id)
        → let reply =
            finish_non_streaming_ok x clock state ctx body surface.to_canonical_response
              surface.outcome_for model_hint in
          (reply.0.status ≡ 200)
          × (reply.0.body ≡ json body)
          × Commits x state reply.1 ctx response (surface.outcome_for response.stop_reason)
    unfolding finish_non_streaming_ok signed_response
    finish_non_streaming_ok-Commits clock state ctx body model_hint response meta request_id h =
        let (blob, b) = blob_total (response_value response) in
        let (hash, m) = hash_total (meta_value meta) in
        let (stored, next, e, c) =
          response_signed clock state ctx response request_id
            (surface.outcome_for response.stop_reason) blob hash b in
        let same =
          same_answer (record { status = 200; body = json body; receipt_header = none })
            stored.receipt_id in
        rw (finish_non_streaming_ok, h, b, m, e) (same.0, same.1, c)

    -- The permit that a handler holds does not matter to its receipt.
    pub Commits-release :
        (state : AppState) (reply : Reply) (ctx : CallContext) (response : CanonicalResponse)
        (outcome : Outcome)
        → 0 < state.permits
        → Commits x (record state { permits = state.permits - 1 }) reply.state ctx response outcome
        → Commits x state (release reply).state ctx response outcome
    Commits-release state reply ctx response outcome h c = record {
      payload = c.payload;
      timestamp_ms = c.timestamp_ms;
      signature = c.signature;
      signed = record { signed = c.signed.signed; configured = c.signed.configured };
      stored = given_back x surface state reply.state _ h c.stored;
      identified = c.identified;
      requested = c.requested;
      responded = c.responded;
      model = c.model;
      input_tokens = c.input_tokens;
      cache_creation_tokens = c.cache_creation_tokens;
      cache_read_tokens = c.cache_read_tokens;
      output_tokens = c.output_tokens;
      outcome_code = c.outcome_code;
    }
