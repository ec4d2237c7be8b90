-- ===== src/Server/Handlers/Gate.antt =====
-- server.rs: what must hold before a request goes upstream.
use sekisho.Base.{
  ltb, Bool, true, none, some, Option-cases, ok, Result-cases, Bool-cases, inl, inr, ◌⊎◌, ◌≡◌, refl,
  ap,
}
use sekisho.Text.{Str, Bytes}
use sekisho.Json.{Value}
use sekisho.Canonical.{CanonicalRequest}
use sekisho.Canonical.Serialize.{blob_id_of, request_value}
use sekisho.Policy.Evaluate.{evaluate}
use sekisho.External.{External}
use sekisho.Server.{AppState}
use sekisho.Server.Surfaces.{Call, Send, Surface}
use sekisho.Server.Handlers.{
  release, authenticate, resolve_receipt_id, dispatch, check_policy, policy_request, respond,
  handle,
}

module _ (x : External) (surface : Surface) where
  -- A request of a known caller that holds a permit, that parses, whose nonce is absent or right,
  -- that the policy allows, and whose provider has a key.
  pub record Admitted (call : Call) (state : AppState) : Type 0 where
    pub caller_key : Str
    pub raw : Value
    pub wants_stream : Bool
    pub request : CanonicalRequest
    pub receipt_id : Bytes
    pub rule : Str
    pub api_key : Str
    pub authenticated : authenticate x state call.headers ≡ some caller_key
    pub permitted : ltb 0 state.permits ≡ true
    pub parsed : surface.parse_request call.body ≡ ok (raw, wants_stream, request)
    pub resolved : resolve_receipt_id x call.uuid call.headers.nonce ≡ ok receipt_id
    pub allowed :
        evaluate x.debug state.config.policy (policy_request x surface call caller_key request)
        ≡ ok rule
    pub configured : surface.api_key state.config ≡ some api_key

  dispatch_unsent :
      (call : Call) (state : AppState) (send send' : Send) (receipt_id request_blob : Bytes)
      (raw : Value) (wants_stream : Bool) (model_hint : Str)
      → surface.api_key state.config ≡ none
      → dispatch x surface call state send receipt_id request_blob raw wants_stream model_hint
        ≡ dispatch x surface call state send' receipt_id request_blob raw wants_stream model_hint
  unfolding dispatch
  dispatch_unsent call state send send' receipt_id request_blob raw wants_stream model_hint n =
      rw (dispatch, n) refl

  -- Whatever an upstream answers makes no difference to a handler, its state and its receipts,
  -- unless the caller's key is one of the configuration's, a permit is free, the request parses, its
  -- nonce is absent or right, the policy allows it, and the provider has a key: nothing is sent
  -- before all of these have been checked.
  pub handle-Admitted :
      (call : Call) (state : AppState) (send send' : Send)
      → (handle x surface call state send ≡ handle x surface call state send') ⊎ Admitted call state
  unfolding handle respond check_policy
  handle-Admitted call state send send' = elim (Option-cases (authenticate x state call.headers)) [
    | inl n ↦ inl (rw (handle, n) refl)
    | inr (caller_key, a) ↦ elim (Bool-cases (ltb 0 state.permits)) [
      | inr b ↦ inl (rw (handle, a, b) refl)
      | inl b ↦ elim (Result-cases (surface.parse_request call.body)) [
        | inr (e, p) ↦ inl (rw (handle, a, b, respond, p) refl)
        | inl ((raw, wants_stream, request), p) ↦
            elim (Result-cases (blob_id_of x.hashing (request_value request))) [
              | inr (e, q) ↦ inl (rw (handle, a, b, respond, p, q) refl)
              | inl (blob, q) ↦
                  elim (Result-cases (resolve_receipt_id x call.uuid call.headers.nonce)) [
                    | inr (e, r) ↦ inl (rw (handle, a, b, respond, p, q, r) refl)
                    | inl (id, r) ↦
                        elim (Result-cases (
                          evaluate x.debug state.config.policy
                            (policy_request x surface call caller_key request))) [
                              | inr (denial, e) ↦
                                  inl (rw (handle, a, b, respond, p, q, r, check_policy, e) refl)
                              | inl (rule, e) ↦ elim (Option-cases (surface.api_key state.config)) [
                                | inl n ↦ inl (
                                    rw (handle, a, b, respond, p, q, r, check_policy, e)
                                      (ap release (
                                        dispatch_unsent call _ send send' id blob raw wants_stream
                                          request.model n)))
                                | inr (key, k) ↦ inr (record {
                                  caller_key = caller_key;
                                  raw = raw;
                                  wants_stream = wants_stream;
                                  request = request;
                                  receipt_id = id;
                                  rule = rule;
                                  api_key = key;
                                  authenticated = a;
                                  permitted = b;
                                  parsed = p;
                                  resolved = r;
                                  allowed = e;
                                  configured = k;
                                })
                              ]
                            ]
                  ]
            ]
      ]
    ]
  ]
