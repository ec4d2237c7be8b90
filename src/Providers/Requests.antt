-- ===== src/Providers/Requests.antt =====
-- What the two adapters send upstream, and what they record of it.
use sekisho.Base.{Bool, true, false, some, ◌≡◌, refl, ap, ◌∙◌, same, if◌then◌else◌}
use sekisho.Text.{Str, lit}
use sekisho.Json.{Value, Fields, bool, object, field, end, insert_field, get, set_field}
use sekisho.Json.Objects.{lookup-insert_field}
use sekisho.External.{External}
use sekisho.Providers.{set_header}
use sekisho.Providers.OpenAi
use sekisho.Providers.Anthropic

get-set_field :
    (key k : Str) (v : Value) (fields : Fields)
    → get key (set_field k v (object fields))
      ≡ (if same key k then some v else get key (object fields))
get-set_field key k v fields = lookup-insert_field key k v fields

-- Both adapters send the caller's object with `stream` set to whether there is to be a stream, an
-- OpenAI stream with `stream_options` set to ask for the counters, and every other field as it is.
pub get-requests :
    (x : External) (base api_key key : Str) (fields : Fields) (stream : Bool)
    → (get key (OpenAi.non_streaming_request x base api_key (object fields)).body
        ≡ (if same key (lit "stream") then some (bool false) else get key (object fields)))
      × (get key (OpenAi.streaming_request x base api_key (object fields)).body ≡ (
          if same key (lit "stream_options")
          then some (object (field (lit "include_usage") (bool true) end))
          else if same key (lit "stream")
          then some (bool true)
          else get key (object fields)))
      × (get key (Anthropic.upstream_request x stream base api_key (object fields)).body
          ≡ (if same key (lit "stream") then some (bool stream) else get key (object fields)))
unfolding OpenAi.non_streaming_request OpenAi.streaming_request Anthropic.upstream_request
get-requests x base api_key key fields stream = (
  get-set_field key (lit "stream") (bool false) fields,
  get-set_field key (lit "stream_options") (object (field (lit "include_usage") (bool true) end))
        (insert_field (lit "stream") (bool true) fields)
      ∙ ap
          (λ sent.
            if same key (lit "stream_options")
            then some (object (field (lit "include_usage") (bool true) end))
            else sent)
          (get-set_field key (lit "stream") (bool true) fields),
  get-set_field key (lit "stream") (bool stream) fields,
)

-- The headers that go into a receipt do not depend on the provider's key: no part of it is recorded.
pub upstream_headers-redacted :
    (x : External) (api_key other_key : Str)
    → ((OpenAi.upstream_headers x api_key).1 ≡ (OpenAi.upstream_headers x other_key).1)
      × ((Anthropic.upstream_headers x api_key).1 ≡ (Anthropic.upstream_headers x other_key).1)
unfolding OpenAi.upstream_headers Anthropic.upstream_headers set_header
upstream_headers-redacted x api_key other_key = (refl, refl)
