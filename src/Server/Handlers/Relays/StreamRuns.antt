-- ===== src/Server/Handlers/Relays/StreamRuns.antt =====
-- A stream from its request to its receipt, at a stream that breaks off.
use sekisho.Base.{true, [], ◌∷◌, some, ok, ◌-◌, ◌≡◌, refl, replicate}
use sekisho.Text.{
  Str, lit, split_once, to_lower, trim, trim_start, trim_end, keep_before, is_whitespace,
}
use sekisho.Text.Utf8.{as_bytes, encode_char}
use sekisho.External.{External}
use sekisho.Json.{object, field, end, bool, Value}
use sekisho.Fixtures.{external}
use sekisho.Auth.{extract_bearer, identify_caller, constant_time_eq}
use sekisho.Canonical.{CanonicalResponse, ProviderMeta, upstream_error}
use sekisho.Canonical.Serialize.{blob_id_of, request_value}
use sekisho.Policy.Evaluate.{evaluate, evaluate_deny, evaluate_allow}
use sekisho.Providers.{HttpResponse, UpstreamMeta, upstream_meta}
use sekisho.Providers.OpenAi.{
  start_streaming, streaming_body, parse_request, to_canonical_request, upstream_headers,
  request_id_header,
}
use sekisho.Providers.OpenAi.Accumulator as OpenAiStream
use sekisho.Server.{AppState, event_stream}
use sekisho.Server.Surfaces.{Surface, Send, drive, chat_completions}
use sekisho.Server.Upstream.{Pending, poll_stream}
use sekisho.Server.Handlers.{authenticate, resolve_receipt_id, handle}
use sekisho.Server.Handlers.Gate.{Admitted}
use sekisho.Server.Handlers.Relays.Streamed.{handle-stream-Commits}
use sekisho.Server.Handlers.Commits.{Commits}
use sekisho.Server.Handlers.Relays.Runs.{
  wire_fields, decoders, call, open_state, answer, to_vec_total, sign_total, success_run, stream,
}

-- A request for a stream, by crates that read its body so.
abbrev streaming_request : Value
streaming_request = object (field (lit "stream") (bool true) end)

abbrev streaming : External
streaming = record external { from_slice = λ _. ok streaming_request }

abbrev live : Surface
live = chat_completions streaming decoders

abbrev streamed : HttpResponse
streamed = record answer { bytes_stream = stream.upstream }

abbrev sending : Send
sending _ = ok streamed

stream_admitted : Admitted streaming live call open_state
unfolding authenticate extract_bearer split_once to_lower trim trim_start trim_end keep_before
    is_whitespace identify_caller constant_time_eq as_bytes encode_char chat_completions
    parse_request evaluate evaluate_deny evaluate_allow resolve_receipt_id
stream_admitted = record {
  caller_key = lit "key";
  raw = streaming_request;
  wants_stream = true;
  request = to_canonical_request streaming wire_fields;
  receipt_id = replicate 16 5;
  rule = lit "all";
  api_key = lit "sk";
  authenticated = refl;
  permitted = refl;
  parsed = refl;
  resolved = refl;
  allowed = refl;
  configured = refl;
}

abbrev live_meta : UpstreamMeta
live_meta =
    upstream_meta streaming request_id_header streamed (upstream_headers streaming (lit "sk")).1

live_blob_run :
    blob_id_of streaming.hashing (request_value (to_canonical_request streaming wire_fields))
    ≡ ok (replicate 32 9)
unfolding blob_id_of
live_blob_run = refl

start_run :
    live.start_streaming sending
      (live.base_url (record open_state { permits = open_state.permits - 1 }))
      (lit "sk")
      streaming_request
    ≡ ok (streamed, some (streaming_body streaming streaming_request), live_meta)
unfolding chat_completions start_streaming
start_run = refl

abbrev live_end : CanonicalResponse × ProviderMeta × Str
live_end =
    OpenAiStream.finish streaming decoders
      (OpenAiStream.feed streaming decoders OpenAiStream.new (lit "data: [DONE]\n")).accumulated
      (to_canonical_request streaming wire_fields).model

live_assemble_run :
    live.assemble streamed.bytes_stream (to_canonical_request streaming wire_fields).model
    ≡ (some live_end, lit "data: [DONE]\n" ∷ [], true)
unfolding chat_completions drive
live_assemble_run = refl

handle-stream-Commits_example :
    let reply = handle streaming live call open_state sending in
    (reply.response ≡ record {
      status = 200;
      body = event_stream;
      receipt_header = some (streaming.hex_encode (replicate 16 5));
    })
    × (reply.state ≡ open_state)
    × (pending : Pending) × (reply.stream ≡ some pending)
    × (pending.ctx.receipt_id ≡ replicate 16 5)
    × (pending.ctx.request_blob ≡ replicate 32 9)
    × (next : AppState) × (poll_stream streaming live (some 1700000000001) open_state pending
        ≡ some (lit "data: [DONE]\n" ∷ [], next))
    × Commits streaming open_state next pending.ctx live_end.0 upstream_error
unfolding stream_admitted
handle-stream-Commits_example =
    handle-stream-Commits streaming to_vec_total sign_total live call open_state open_state sending
      stream_admitted (replicate 32 9) streamed (some (streaming_body streaming streaming_request))
      live_meta (streaming.hex_encode (replicate 16 5)) live_end.0 live_end.1 live_end.2
      (lit "data: [DONE]\n" ∷ []) true (some 1700000000001) refl live_blob_run start_run success_run
      refl live_assemble_run
