-- ===== src/Server/Receipts.antt =====
-- server.rs: the making of receipts.
use sekisho.Base.{
  ℕ, true, [], ◌++◌, Option, none, some, Result, ok, err, if◌then◌else◌, unwrap_or, is_empty,
}
use sekisho.Text.{Str, Bytes, lit}
use sekisho.Json.{Value}
use sekisho.Canonical.{CanonicalResponse, ProviderMeta, Outcome, as_u8, upstream_error}
use sekisho.Canonical.Serialize.{
  sha256_of, blob_id_of, headers_value, meta_value, response_value, zero32,
}
use sekisho.Config.{AppConfig}
use sekisho.Receipt.{Receipt, serialize_intent_message}
use sekisho.Receipt.Stored.{StoredReceipt, stored_receipt, insert}
use sekisho.Providers.{ProviderError, error_text, UpstreamMeta, error_record_value}
use sekisho.External.{External}
use sekisho.Server.{
  AppState, Response, error_response, current_timestamp_ms, CallContext, ReceiptParts, json,
  error_body,
}

-- `.unwrap_or([0u8; 32])`.
abbrev or_zero : Result Bytes Str → Bytes
or_zero (ok bytes) = bytes
or_zero (err _) = zero32

-- `ProviderMeta::default()`.
abbrev pub no_meta : ProviderMeta
no_meta = record { stop_reason = []; service_tier = none; inference_geo = none }

module _ (x : External) where
  -- `response.headers_mut().insert("x-receipt-id", …)`, if the id is a header value.
  unfoldable pub insert_receipt_header : Response → Str → Response
  insert_receipt_header response receipt_id = elim (x.header_value receipt_id) [
    | none ↦ response
    | some value ↦ record response { receipt_header = some value }
  ]

  unfoldable pub no_upstream_call : Bytes → ℕ → Str → Bytes → CallContext
  no_upstream_call receipt_id provider endpoint_host request_blob = record {
    receipt_id = receipt_id;
    provider = provider;
    endpoint_host = endpoint_host;
    request_blob = request_blob;
    upstream_request_blob = request_blob;
    upstream_headers_hash = or_zero (sha256_of x.hashing (headers_value []));
    tls_cert_sha256 = zero32;
    provider_request_id = [];
  }

  unfoldable pub with_upstream_meta : Bytes → ℕ → Str → Bytes → Bytes → UpstreamMeta → CallContext
  with_upstream_meta receipt_id provider endpoint_host request_blob upstream_request_blob meta =
      record {
        receipt_id = receipt_id;
        provider = provider;
        endpoint_host = endpoint_host;
        request_blob = request_blob;
        upstream_request_blob = upstream_request_blob;
        upstream_headers_hash = or_zero (sha256_of x.hashing (headers_value meta.upstream_headers));
        tls_cert_sha256 = meta.tls_cert_sha256;
        provider_request_id = unwrap_or [] meta.request_id_header;
      }

  unfoldable pub receipt_of : AppConfig → ReceiptParts → Receipt
  receipt_of config parts = record {
    receipt_id = parts.receipt_id;
    config_hash = config.config_hash;
    provider = parts.provider;
    endpoint_host = parts.endpoint_host;
    tls_cert_sha256 = parts.tls_cert_sha256;
    request_blob = parts.request_blob;
    upstream_request_blob = parts.upstream_request_blob;
    upstream_headers_hash = parts.upstream_headers_hash;
    model_id = parts.model_id;
    provider_request_id = parts.provider_request_id;
    response_blob = parts.response_blob;
    provider_meta_hash = parts.provider_meta_hash;
    input_tokens = parts.input_tokens;
    cache_creation_tokens = parts.cache_creation_tokens;
    cache_read_tokens = parts.cache_read_tokens;
    output_tokens = parts.output_tokens;
    outcome = as_u8 parts.outcome;
  }

  -- The end of `sign_and_store`, at the signing context's result.
  unfoldable pub store_signed :
      AppState → Receipt → ℕ → Result Bytes Str → Result StoredReceipt Str × AppState
  store_signed state payload timestamp_ms (err e) = (err e, state)
  store_signed state payload timestamp_ms (ok signature) =
      let stored = stored_receipt x.hex_encode payload timestamp_ms signature in
      (ok stored, record state { receipts = insert state.receipts stored })

  -- `clock` is what the system clock reads at the moment of signing.
  unfoldable pub sign_and_store :
      Option ℕ → AppState → ReceiptParts → Result StoredReceipt Str × AppState
  unfolding receipt_of current_timestamp_ms store_signed
  sign_and_store clock state parts =
      let payload = receipt_of state.config parts in
      let timestamp_ms = current_timestamp_ms clock in
      store_signed state payload timestamp_ms
        (x.sign (serialize_intent_message payload timestamp_ms))

  -- The answer to the outcome of `sign_and_store`: `response` with the id of the receipt.
  unfoldable pub signed_response :
      Response → Result StoredReceipt Str × AppState → Response × AppState
  unfolding insert_receipt_header error_response
  signed_response response (ok stored, state) =
      (insert_receipt_header response stored.receipt_id, state)
  signed_response response (err e, state) = (error_response 500 (lit "signing_failed") e, state)

  unfoldable pub error_parts : CallContext → Str → Outcome → Option ℕ → Str → ReceiptParts
  error_parts ctx model_hint outcome status message = record {
    receipt_id = ctx.receipt_id;
    provider = ctx.provider;
    endpoint_host = ctx.endpoint_host;
    tls_cert_sha256 = ctx.tls_cert_sha256;
    request_blob = ctx.request_blob;
    upstream_request_blob = ctx.upstream_request_blob;
    upstream_headers_hash = ctx.upstream_headers_hash;
    model_id = model_hint;
    provider_request_id = ctx.provider_request_id;
    response_blob = or_zero (
        blob_id_of x.hashing
          (error_record_value (record { error = true; status = status; message = message })));
    provider_meta_hash = or_zero (sha256_of x.hashing (meta_value no_meta));
    input_tokens = 0;
    cache_creation_tokens = 0;
    cache_read_tokens = 0;
    output_tokens = 0;
    outcome = outcome;
  }

  unfoldable pub finish_error_receipt :
      Option ℕ
      → AppState
      → CallContext
      → Str
      → Outcome
      → Option ℕ
      → Str
      → ℕ
      → Str
      → Response × AppState
  unfolding error_parts sign_and_store signed_response
  finish_error_receipt clock state ctx model_hint outcome status message http_status error_code =
      signed_response
        (record {
          status = http_status;
          body = error_body error_code message;
          receipt_header = none;
        })
        (sign_and_store clock state (error_parts ctx model_hint outcome status message))

  -- The parts of a receipt for an assembled response. The request id of the body goes before that
  -- of the header.
  unfoldable pub response_parts :
      CallContext
      → CanonicalResponse
      → Str
      → Outcome
      → (response_blob provider_meta_hash : Bytes) → ReceiptParts
  response_parts ctx response provider_request_id outcome response_blob provider_meta_hash =
      record {
        receipt_id = ctx.receipt_id;
        provider = ctx.provider;
        endpoint_host = ctx.endpoint_host;
        tls_cert_sha256 = ctx.tls_cert_sha256;
        request_blob = ctx.request_blob;
        upstream_request_blob = ctx.upstream_request_blob;
        upstream_headers_hash = ctx.upstream_headers_hash;
        model_id = response.model;
        provider_request_id =
            if is_empty provider_request_id then ctx.provider_request_id else provider_request_id;
        response_blob = response_blob;
        provider_meta_hash = provider_meta_hash;
        input_tokens = response.usage.input_tokens;
        cache_creation_tokens = response.usage.cache_creation_tokens;
        cache_read_tokens = response.usage.cache_read_tokens;
        output_tokens = response.usage.output_tokens;
        outcome = outcome;
      }

  unfoldable pub finish_non_streaming_ok :
      Option ℕ
      → AppState
      → CallContext
      → Value
      → (Value → Result (CanonicalResponse × ProviderMeta × Str) ProviderError)
      → (Str → Outcome)
      → Str
      → Response × AppState
  unfolding finish_error_receipt response_parts error_response
  finish_non_streaming_ok clock state ctx raw_response to_canonical outcome_for model_hint =
      elim (to_canonical raw_response) [
        | err e ↦
            finish_error_receipt clock state ctx model_hint upstream_error none
              (lit "failed to decode upstream response: " ++ error_text e) 502
              (lit "upstream_decode_error")
        | ok (response, meta, provider_request_id) ↦
            elim (blob_id_of x.hashing (response_value response)) [
              | err e ↦ (error_response 500 (lit "internal_error") e, state)
              | ok response_blob ↦ elim (sha256_of x.hashing (meta_value meta)) [
                | err e ↦ (error_response 500 (lit "internal_error") e, state)
                | ok provider_meta_hash ↦
                    signed_response
                      (record { status = 200; body = json raw_response; receipt_header = none })
                      (sign_and_store clock state (
                        response_parts ctx response provider_request_id
                          (outcome_for response.stop_reason) response_blob provider_meta_hash))
              ]
            ]
      ]
