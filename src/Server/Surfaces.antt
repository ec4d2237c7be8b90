-- ===== src/Server/Surfaces.antt =====
-- server.rs: what `chat_completions` and `messages` take from a request and from their provider. The
-- two handlers differ in the provider's functions only.
use sekisho.Base.{
  ℕ, Bool, true, false, List, [], ◌∷◌, Option, none, some, Result, ok, err, and_then, map_option,
}
use sekisho.Text.{Str, Bytes, lit}
use sekisho.Json.{Value}
use sekisho.Canonical.{CanonicalRequest, CanonicalResponse, ProviderMeta, Outcome}
use sekisho.Config.{AppConfig}
use sekisho.Providers.{ProviderError, UpstreamMeta, HttpRequest, HttpResponse}
use sekisho.Providers.OpenAi
use sekisho.Providers.OpenAi.Accumulator as OpenAiStream
use sekisho.Providers.Anthropic
use sekisho.Providers.Anthropic.Accumulator as AnthropicStream
use sekisho.External.{External}
use sekisho.Server.{AppState, anthropic_id, openai_compatible_id}

-- A header that is absent, that is not visible ASCII, or its text.
abbrev pub Header : Type 0
Header = Option (Option Str)

abbrev pub text_of : Header → Option Str
text_of header = and_then header (λ h. h)

pub record Headers : Type 0 where
  pub authorization : Header
  pub nonce : Header

-- What a handler reads besides its state: the request, the clock at the moment of signing, a fresh
-- UUID, and the upstream, `Client::post(..).send()`.
pub record Call : Type 0 where
  pub headers : Headers
  pub body : Bytes
  pub clock : Option ℕ
  pub uuid : Bytes

abbrev pub Send : Type 0
Send = HttpRequest → Result HttpResponse Str

abbrev pub Decoded : Type 0
Decoded = CanonicalResponse × ProviderMeta × Str

-- The functions of a provider's module that a handler calls.
pub record Surface : Type 0 where
  pub provider : ℕ
  pub host : Str
  pub base_url : AppState → Str
  pub api_key : AppConfig → Option Str
  pub unconfigured : Str
  pub parse_request : Bytes → Result (Value × Bool × CanonicalRequest) ProviderError
  pub call_non_streaming :
      Send → Str → Str → Value → Result (ℕ × Value × UpstreamMeta) ProviderError
  pub start_streaming :
      Send → Str → Str → Value → Result (HttpResponse × Option Value × UpstreamMeta) ProviderError
  pub to_canonical_response : Value → Result Decoded ProviderError
  pub outcome_for : Str → Outcome
  pub assemble : List (Result Bytes Str) → Str → Option Decoded × List Bytes × Bool

-- The `while let` loop of a stream's body: the accumulator, the chunks passed on, and whether it
-- ended in a transport error.
unfoldable pub drive {ℓ} :
    {A : Type ℓ} → (A → Bytes → A) → A → List (Result Bytes Str) → A × List Bytes × Bool
drive feed acc [] = (acc, [], false)
drive feed acc (err e ∷ chunks) = (acc, [], true)
drive feed acc (ok bytes ∷ chunks) =
    let (end_acc, passed_on, failed) = drive feed (feed acc bytes) chunks in
    (end_acc, bytes ∷ passed_on, failed)

module _ (x : External) where
  module _ (d : OpenAi.Decoders) where
    abbrev assembled_chat :
        OpenAiStream.StreamAccumulator × List Bytes × Bool
        → Str
        → Option Decoded × List Bytes × Bool
    assembled_chat (acc, passed_on, failed) model_hint =
        (some (OpenAiStream.finish x d acc.accumulated model_hint), passed_on, failed)

    -- `chat_completions` is `handle` of this surface.
    unfoldable pub chat_completions : Surface
    chat_completions = record {
      provider = openai_compatible_id;
      host = OpenAi.host;
      base_url = λ state. state.openai_base_url;
      api_key = λ config. config.openai_api_key;
      unconfigured = lit "OpenAI-compatible provider is not configured";
      parse_request = OpenAi.parse_request x d;
      call_non_streaming = OpenAi.call_non_streaming x;
      start_streaming = λ send base api_key raw.
          elim (OpenAi.start_streaming x send base api_key raw) [
            | err e ↦ err e
            | ok (response, dispatched_body, meta) ↦ ok (response, some dispatched_body, meta)
          ];
      to_canonical_response = OpenAi.to_canonical_response x d;
      outcome_for = OpenAi.outcome_for_finish_reason;
      assemble = λ chunks model_hint.
          assembled_chat (drive (OpenAiStream.feed x d) OpenAiStream.new chunks) model_hint;
    }

  module _ (d : Anthropic.Decoders) where
    abbrev assembled_messages :
        AnthropicStream.StreamAccumulator × List Bytes × Bool
        → Str
        → Option Decoded × List Bytes × Bool
    assembled_messages (acc, passed_on, failed) model_hint =
        (map_option (λ a. AnthropicStream.finish x a model_hint) acc.accumulated, passed_on, failed)

    -- `messages` is `handle` of this surface.
    unfoldable pub messages : Surface
    messages = record {
      provider = anthropic_id;
      host = Anthropic.host;
      base_url = λ state. state.anthropic_base_url;
      api_key = λ config. config.anthropic_api_key;
      unconfigured = lit "Anthropic provider is not configured";
      parse_request = Anthropic.parse_request x d;
      call_non_streaming = Anthropic.call_non_streaming x;
      start_streaming = λ send base api_key raw.
          elim (Anthropic.start_streaming x send base api_key raw) [
            | err e ↦ err e
            | ok (response, meta) ↦ ok (response, none, meta)
          ];
      to_canonical_response = Anthropic.to_canonical_response x d;
      outcome_for = Anthropic.outcome_for_stop_reason;
      assemble = λ chunks model_hint.
          assembled_messages (drive (AnthropicStream.feed x) AnthropicStream.new chunks) model_hint;
    }
