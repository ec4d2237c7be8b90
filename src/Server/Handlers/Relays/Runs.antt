-- ===== src/Server/Handlers/Relays/Runs.antt =====
-- A request that is answered with its receipt.
use sekisho.Base.{true, false, [], ◌∷◌, none, some, ok, err, ◌-◌, ◌≡◌, refl, replicate}
use sekisho.Text.{
  Bytes, lit, split_once, to_lower, trim, trim_start, trim_end, keep_before, is_whitespace,
}
use sekisho.Text.Utf8.{as_bytes, encode_char}
use sekisho.Json.{Value, null}
use sekisho.Fixtures.{external, config, context}
use sekisho.Fixtures
use sekisho.Auth.{extract_bearer, identify_caller, constant_time_eq}
use sekisho.Canonical.{CanonicalRequest, CanonicalResponse, ProviderMeta}
use sekisho.Canonical.Serialize.{blob_id_of, request_value}
use sekisho.Policy.Evaluate.{evaluate, evaluate_deny, evaluate_allow}
use sekisho.Providers.{HttpResponse, UpstreamMeta, read_json, upstream_meta}
use sekisho.Providers.OpenAi.{
  Decoders, WireRequestFields, WireUsage, parse_request, to_canonical_request, call_non_streaming,
  to_canonical_response, to_canonical_usage, upstream_headers, request_id_header,
}
use sekisho.Server.{AppState, json}
use sekisho.Server.Receipts.{with_upstream_meta}
use sekisho.Server.Surfaces.{Surface, Call, Send, chat_completions}
use sekisho.Server.Upstream.{Pending, is_success}
use sekisho.Server.Handlers.{authenticate, resolve_receipt_id, handle}
use sekisho.Server.Handlers.Gate.{Admitted}
use sekisho.Server.Handlers.Commits.{Commits}
use sekisho.Server.Handlers.Relays.{handle-Commits}

abbrev no_usage : WireUsage
no_usage = record { prompt_tokens = 7; completion_tokens = 2; prompt_tokens_details = none }

abbrev pub wire_fields : WireRequestFields
wire_fields = record {
  model = lit "gpt-4o";
  messages = [];
  max_tokens = some 100;
  temperature = none;
  tools = none;
  tool_choice = none;
}

abbrev pub decoders : Decoders
decoders = record {
  request_fields = λ _. ok wire_fields;
  response = λ _. ok (record { model = lit "gpt-4o"; choices = []; usage = no_usage });
  usage = λ _. err (lit "no usage");
}

abbrev chat : Surface
chat = chat_completions external decoders

abbrev pub call : Call
call = record {
  headers = record { authorization = some (some (lit "Bearer key")); nonce = none };
  body = b'{' ∷ b'}' ∷ [];
  clock = some 1700000000000;
  uuid = replicate 16 5;
}

-- A gateway with a provider's key and one rule, which allows everything.
abbrev pub open_state : AppState
open_state = record (Fixtures.state) {
  config = record config {
    openai_api_key = some (lit "sk");
    policy = record {
      deny_rules = [];
      allow_rules =
          record {
            name = lit "all";
            caller_keys = none;
            model_matcher = none;
            max_tokens = none;
            max_request_bytes = none;
          }
          ∷ [];
    };
  };
}

abbrev pub answer : HttpResponse
answer = record {
  status = 200;
  peer_certificate = none;
  header = λ _. some (lit "req-1");
  bytes = ok (lit "{}");
  text = ok (lit "{}");
  bytes_stream = [];
}

abbrev answering : Send
answering _ = ok answer

abbrev wire_request : CanonicalRequest
wire_request = to_canonical_request external wire_fields

admitted : Admitted external chat call open_state
unfolding authenticate extract_bearer split_once to_lower trim trim_start trim_end keep_before
    is_whitespace identify_caller constant_time_eq as_bytes encode_char chat_completions
    parse_request evaluate evaluate_deny evaluate_allow resolve_receipt_id
admitted = record {
  caller_key = lit "key";
  raw = null;
  wants_stream = false;
  request = wire_request;
  receipt_id = replicate 16 5;
  rule = lit "all";
  api_key = lit "sk";
  authenticated = refl;
  permitted = refl;
  parsed = refl;
  resolved = refl;
  allowed = refl;
  configured = refl;
}

abbrev meta : UpstreamMeta
meta = upstream_meta external request_id_header answer (upstream_headers external (lit "sk")).1

abbrev pub response : CanonicalResponse
response = record {
  model = lit "gpt-4o";
  content = [];
  stop_reason = [];
  usage = to_canonical_usage no_usage;
}

abbrev provider_meta : ProviderMeta
provider_meta = record { stop_reason = []; service_tier = none; inference_geo = none }

pub to_vec_total : (v : Value) → (bytes : Bytes) × (external.hashing.to_vec v ≡ ok bytes)
to_vec_total v = (b'{' ∷ b'}' ∷ [], refl)

pub sign_total : (message : Bytes) → (signature : Bytes) × (external.sign message ≡ ok signature)
sign_total message = (message, refl)

request_blob_run : blob_id_of external.hashing (request_value wire_request) ≡ ok (replicate 32 9)
unfolding blob_id_of
request_blob_run = refl

call_run :
    chat.call_non_streaming answering
      (chat.base_url (record open_state { permits = open_state.permits - 1 }))
      (lit "sk")
      null
    ≡ ok (200, null, meta)
unfolding chat_completions call_non_streaming read_json
call_run = refl

response_run : chat.to_canonical_response null ≡ ok (response, provider_meta, [])
unfolding chat_completions to_canonical_response
response_run = refl

pub success_run : is_success 200 ≡ true
unfolding is_success
success_run = refl

handle-Commits_example :
    ((handle external chat call open_state answering).response.status ≡ 200)
    × ((handle external chat call open_state answering).response.body ≡ json null)
    × Commits external open_state
        (handle external chat call open_state answering).state
        (with_upstream_meta external
          (replicate 16 5)
          chat.provider
          chat.host
          (replicate 32 9)
          (replicate 32 9)
          meta)
        response
        (chat.outcome_for [])
unfolding admitted
handle-Commits_example =
    handle-Commits external to_vec_total sign_total chat call open_state answering admitted
      (replicate 32 9) 200 null meta response provider_meta [] refl request_blob_run call_run
      success_run response_run

-- A stream that breaks off.
abbrev pub stream : Pending
stream = record {
  ctx = context;
  model_hint = lit "gpt-4o";
  upstream = ok (lit "data: [DONE]\n") ∷ err (lit "reset") ∷ [];
}
