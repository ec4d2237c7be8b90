-- ===== src/Server/Routes/Limits.antt =====
-- server.rs: which requests reach the state.
use sekisho.Base.{
  ℕ, ◌≤◌, ◌&&◌, Bool, true, false, Result, none, ◌⊎◌, inl, inr, ◌≡◌, refl, ltb, length, arith,
}
use sekisho.External.{External}
use sekisho.Server.{AppState}
use sekisho.Server.Surfaces.{Call, Send}
use sekisho.Providers.OpenAi
use sekisho.Providers.Anthropic
use sekisho.Server.Routes.{
  NautilusContext, AttestationBody, Route, health_check, get_attestation, post_attestation,
  chat_completions, messages, get_receipt_route, no_route, within_limit, rejected, serve,
}

-- The two routes for inference.
abbrev pub is_inference : Route → Bool
is_inference chat_completions = true
is_inference messages = true
is_inference _ = false

-- The routes that read a body; one that is not JSON is turned away before its body is read.
abbrev pub reads_body : Route → Bool
reads_body (post_attestation is_json) = is_json
reads_body route = is_inference route

module _ (x : External) (ctx : NautilusContext) (extract : Call → Result AttestationBody ℕ)
    (chat : OpenAi.Decoders) (anthropic : Anthropic.Decoders) where
  -- Only an inference request whose body is within the limit can change the state or leave a stream
  -- behind: on any other route, and with a longer body, the state is the same afterwards and no stream
  -- is left. A longer body, on a route that reads it, is answered with 413, whoever sends it.
  pub serve-limits :
      (route : Route) (call : Call) (state : AppState) (send : Send)
      → ((((serve x ctx extract chat anthropic route call state send).state ≡ state)
            × ((serve x ctx extract chat anthropic route call state send).stream ≡ none))
          ⊎ ((is_inference route ≡ true) × (length call.body ≤ state.config.max_body_bytes)))
        × (((serve x ctx extract chat anthropic route call state send).response ≡ rejected 413)
            ⊎ ((reads_body route && ltb state.config.max_body_bytes (length call.body)) ≡ false))
  unfolding serve within_limit
  serve-limits health_check call state send = (inl (refl, refl), inr refl)
  serve-limits get_attestation call state send = (inl (refl, refl), inr refl)
  serve-limits (post_attestation false) call state send = (inl (refl, refl), inr refl)
  serve-limits (post_attestation true) call state send = ground arith
  serve-limits chat_completions call state send = ground arith
  serve-limits messages call state send = ground arith
  serve-limits (get_receipt_route id) call state send = (inl (refl, refl), inr refl)
  serve-limits (no_route status) call state send = (inl (refl, refl), inr refl)
