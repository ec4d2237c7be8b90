-- ===== src/Server/Routes/Bodies.antt =====
-- server.rs: the bodies of streams, behind the router.
use sekisho.Base.{ℕ, List, Option, some, Result, ◌⊎◌, inl, inr, ◌≡◌}
use sekisho.Text.{Bytes}
use sekisho.External.{External}
use sekisho.Providers.OpenAi
use sekisho.Providers.Anthropic
use sekisho.Server.{AppState}
use sekisho.Server.Surfaces.{Call}
use sekisho.Server.Surfaces as Surfaces
use sekisho.Server.Upstream.{Pending}
use sekisho.Server.Handlers.Streams.{Issues, poll_stream-Issues}
use sekisho.Server.Routes.{
  NautilusContext, AttestationBody, Route, health_check, get_attestation, post_attestation,
  chat_completions, messages, get_receipt_route, no_route, openai_stream_body,
  anthropic_stream_body, serve_body,
}

module _ (x : External) (ctx : NautilusContext) (extract : Call → Result AttestationBody ℕ)
    (chat : OpenAi.Decoders) (anthropic : Anthropic.Decoders) where
  -- The body of a stream changes nothing but the store, where it adds at most the one receipt that the
  -- header named, on either surface; no other route has a body that changes anything.
  serve_body-Issues :
      (route : Route) (clock : Option ℕ) (state : AppState) (pending : Pending)
      (passed_on : List Bytes) (next : AppState)
      → serve_body x ctx extract chat anthropic route clock state pending ≡ some (passed_on, next)
      → (next ≡ state) ⊎ Issues x state pending.ctx.receipt_id next
  unfolding serve_body openai_stream_body anthropic_stream_body
  serve_body-Issues health_check clock state pending passed_on next h = inl (cc h)
  serve_body-Issues get_attestation clock state pending passed_on next h = inl (cc h)
  serve_body-Issues (post_attestation is_json) clock state pending passed_on next h = inl (cc h)
  serve_body-Issues (get_receipt_route id) clock state pending passed_on next h = inl (cc h)
  serve_body-Issues (no_route status) clock state pending passed_on next h = inl (cc h)
  serve_body-Issues chat_completions clock state pending passed_on next h =
      inr (
        poll_stream-Issues x (Surfaces.chat_completions x chat) clock state pending passed_on next
          h)
  serve_body-Issues messages clock state pending passed_on next h =
      inr
        (poll_stream-Issues x (Surfaces.messages x anthropic) clock state pending passed_on next h)
