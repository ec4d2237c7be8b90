-- ===== src/Server/Handlers/Answers.antt =====
-- server.rs: what an answer to an inference request says of the receipt behind it.
pub mod Handle
use mathlib.Core.Path.{subst}
use sekisho.Base.{
  ◌⊎◌, ℕ, suc, ◌-◌, ◌+◌, true, false, Option, none, some, Result, ok, err, Result-cases, inl, inr,
  ◌≡◌, refl, ap, arith,
}
use sekisho.Text.{Str, Bytes, lit}
use sekisho.Json.{Value}
use sekisho.Canonical.{Outcome, as_u8, upstream_error, policy_denied}
use sekisho.Canonical.Serialize.{sha256_of, blob_id_of, response_value, meta_value}
use sekisho.Receipt.{Receipt, serialize_intent_message}
use sekisho.Receipt.Stored.{stored_receipt, insert}
use sekisho.External.{External}
use sekisho.Server.{
  AppState, Response, error_response, CallContext, ReceiptParts, current_timestamp_ms,
}
use sekisho.Server.Receipts.{
  receipt_of, store_signed, sign_and_store, signed_response, insert_receipt_header,
  finish_error_receipt, finish_non_streaming_ok, error_parts,
}
use sekisho.Server.Surfaces.{Surface}
use sekisho.Server.Upstream.{Pending, Reply, answered}

module _ (x : External) where
  -- The state with one more receipt in its store.
  abbrev pub stored_in : AppState → Receipt → ℕ → Bytes → AppState
  stored_in state payload timestamp_ms signature = record state {
    receipts = insert state.receipts (stored_receipt x.hex_encode payload timestamp_ms signature);
  }

  -- A receipt that the enclave signed under its own configuration.
  pub record IsSigned (state : AppState) (payload : Receipt) (timestamp_ms : ℕ) (signature : Bytes)
      : Type 0 where
    pub signed : x.sign (serialize_intent_message payload timestamp_ms) ≡ ok signature
    pub configured : payload.config_hash ≡ state.config.config_hash

  -- How the status of an answer agrees with the receipt that it names: 200 with whatever was relayed,
  -- 403 with a denial and 502 with an upstream error, both without tokens.
  pub data Agrees (status : ℕ) (payload : Receipt) : Type 0 where
    relayed : status ≡ 200 → Agrees status payload
    unserved :
        ((status ≡ 403) × (payload.outcome ≡ as_u8 policy_denied))
          ⊎ ((status ≡ 502) × (payload.outcome ≡ as_u8 upstream_error))
        → payload.input_tokens + payload.cache_creation_tokens + payload.cache_read_tokens
            + payload.output_tokens
          ≡ 0
        → Agrees status payload

  -- The replies there can be in a state: one without a receipt, one whose header names the receipt
  -- that was stored with it, and a stream whose header names the receipt that will be.
  pub data Answers (state : AppState) (reply : Reply) : Type 0 where
    silent :
        reply.response.receipt_header ≡ none
        → reply.stream ≡ none
        → reply.state ≡ state
        → Answers state reply
    receipted :
        (payload : Receipt) (timestamp_ms : ℕ) (signature : Bytes)
        → IsSigned state payload timestamp_ms signature
        → reply.response.receipt_header ≡ x.header_value (x.hex_encode payload.receipt_id)
        → reply.stream ≡ none
        → reply.state ≡ stored_in state payload timestamp_ms signature
        → Agrees reply.response.status payload
        → Answers state reply
    streaming :
        (pending : Pending) (id : Str)
        → reply.stream ≡ some pending
        → reply.response.receipt_header ≡ some id
        → x.header_value (x.hex_encode pending.ctx.receipt_id) ≡ some id
        → reply.state ≡ state
        → Answers state reply

  unsigned :
      (status : ℕ) (code message : Str) (state : AppState)
      → Answers state (answered (error_response status code message, state))
  unfolding error_response
  unsigned status code message state = silent refl refl refl

  headed :
      (response : Response) (id : Str)
      → response.receipt_header ≡ none
      → (insert_receipt_header x response id).receipt_header ≡ x.header_value id
  unfolding insert_receipt_header
  headed response id h = ground arith

  same_status :
      (response : Response) (id : Str)
      → response.status ≡ (insert_receipt_header x response id).status
  unfolding insert_receipt_header
  same_status response id = ground arith

  -- What is made of the outcome of `sign_and_store`.
  store_signed-Answers :
      (response : Response)
      → response.receipt_header ≡ none
      → (state : AppState) (payload : Receipt) (timestamp_ms : ℕ) (result : Result Bytes Str)
      → x.sign (serialize_intent_message payload timestamp_ms) ≡ result
      → payload.config_hash ≡ state.config.config_hash
      → Agrees response.status payload
      → Answers state
          (answered (signed_response x response (store_signed x state payload timestamp_ms result)))
  unfolding store_signed signed_response error_response stored_receipt
  store_signed-Answers response h state payload timestamp_ms (err e) s c g = silent refl refl refl
  store_signed-Answers response h state payload timestamp_ms (ok signature) s c g =
      receipted payload timestamp_ms signature (record { signed = s; configured = c })
        (headed response _ h) refl refl (subst (λ n. Agrees n payload) (same_status response _) g)

  sign_and_store-Answers :
      (response : Response)
      → response.receipt_header ≡ none
      → (clock : Option ℕ) (state : AppState) (parts : ReceiptParts)
      → Agrees response.status (receipt_of x state.config parts)
      → Answers state (answered (signed_response x response (sign_and_store x clock state parts)))
  unfolding sign_and_store receipt_of
  sign_and_store-Answers response h clock state parts g =
      store_signed-Answers response h state (receipt_of x state.config parts)
        (current_timestamp_ms clock) _ refl refl g

  finish_error_receipt-Answers :
      (clock : Option ℕ) (state : AppState) (ctx : CallContext) (model_hint : Str)
      (outcome : Outcome) (status : Option ℕ) (message : Str) (http_status : ℕ) (error_code : Str)
      → ((http_status ≡ 403) × (outcome ≡ policy_denied))
        ⊎ ((http_status ≡ 502) × (outcome ≡ upstream_error))
      → Answers state (
          answered (
            finish_error_receipt x clock state ctx model_hint outcome status message http_status
              error_code))
  unfolding finish_error_receipt receipt_of error_parts
  finish_error_receipt-Answers clock state ctx model_hint outcome status message http_status
        error_code h =
      sign_and_store-Answers _ refl clock state
        (error_parts x ctx model_hint outcome status message)
        (unserved (elim h [ inl (s, o) ↦ inl (s, ap as_u8 o) | inr (s, o) ↦ inr (s, ap as_u8 o) ])
          refl)

  module _ (surface : Surface) where
    finish_non_streaming_ok-Answers :
        (clock : Option ℕ) (state : AppState) (ctx : CallContext) (raw_response : Value)
        (model_hint : Str)
        → Answers state (
            answered (
              finish_non_streaming_ok x clock state ctx raw_response surface.to_canonical_response
                surface.outcome_for model_hint))
    unfolding finish_non_streaming_ok
    finish_non_streaming_ok-Answers clock state ctx raw_response model_hint =
        elim (Result-cases (surface.to_canonical_response raw_response)) [
          | inr (e, d) ↦
              rw (finish_non_streaming_ok, d)
                (finish_error_receipt-Answers clock state ctx model_hint upstream_error none _ 502 _
                  (inr (refl, refl)))
          | inl ((response, meta, id), d) ↦
              elim (Result-cases (blob_id_of x.hashing (response_value response))) [
                | inr (e, b) ↦
                    rw (finish_non_streaming_ok, d, b) (unsigned 500 (lit "internal_error") e state)
                | inl (blob, b) ↦ elim (Result-cases (sha256_of x.hashing (meta_value meta))) [
                  | inr (e, m) ↦
                      rw (finish_non_streaming_ok, d, b, m)
                        (unsigned 500 (lit "internal_error") e state)
                  | inl (meta_hash, m) ↦
                      rw (finish_non_streaming_ok, d, b, m)
                        (sign_and_store-Answers _ refl clock state _ (relayed refl))
                ]
              ]
        ]
