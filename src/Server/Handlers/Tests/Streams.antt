-- ===== src/Server/Handlers/Tests/Streams.antt =====
-- server.rs: the test of a stream that its upstream breaks off, on the model.
use sekisho.Base.{
  Bool, true, ◌&&◌, ◌==◌, [], ◌∷◌, ◌++◌, Option, none, some, ok, err, same, if◌then◌else◌, and_then,
  ◌≡◌, refl,
}
use sekisho.Text.{
  Str, lit, split_once, to_lower, trim, trim_start, trim_end, keep_before, is_whitespace,
  remove_char, strip_prefix, starts_with,
}
use sekisho.Text.Utf8.{as_bytes, encode_char}
use sekisho.Json.{Value, null, bool, string}
use sekisho.External.{External}
use sekisho.Auth.{extract_bearer, identify_caller, constant_time_eq}
use sekisho.Canonical.Serialize.{blob_id_of, sha256_of}
use sekisho.Policy.Evaluate.{evaluate, evaluate_deny, evaluate_allow}
use sekisho.Receipt.Stored.{stored_receipt, new_store, insert, get}
use sekisho.Providers.{upstream_meta}
use sekisho.Providers.OpenAi.{parse_request, start_streaming}
use sekisho.Providers.OpenAi.Accumulator as OpenAiStream
use sekisho.Providers.Stream.{drain, drain_loop, split_line}
use sekisho.Text.Utf8.{from_utf8_lossy, decode, decode_byte, decode_end, first_byte, next_byte}
use sekisho.Server.{AppState, initial_state}
use sekisho.Server.Receipts.{
  sign_and_store, store_signed, receipt_of, response_parts, with_upstream_meta,
}
use sekisho.Server.Surfaces.{Surface, Send, chat_completions, drive}
use sekisho.Server.Upstream.{
  Reply, is_success, poll_stream, end_stream, sign_stream, stream_response, begin_stream,
}
use sekisho.Server.Handlers.{
  authenticate, respond, check_policy, dispatch, resolve_receipt_id, handle,
}
use sekisho.Fixtures.{obj, arr, num}
use sekisho.Server.Handlers.Tests.{
  no_response, decoders, allow_all_policy, test_app, by_caller, reads, holds,
}

-- The one chunk of the broken stream, and its JSON.
abbrev partial_text : Str
partial_text =
    lit
      "{\"id\":\"1\",\"model\":\"gpt-5.2\",\"choices\":[{\"index\":0,\"delta\":{\"content\":\"partial\"},\"finish_reason\":null}]}"

abbrev partial_chunk : Value
partial_chunk = obj (
    (lit "id", string (lit "1"))
    ∷ (lit "model", string (lit "gpt-5.2"))
    ∷ (
      lit "choices",
      arr (
          obj (
            (lit "index", num 0)
            ∷ (lit "delta", obj ((lit "content", string (lit "partial")) ∷ []))
            ∷ (lit "finish_reason", null)
            ∷ [])
          ∷ []),
    )
    ∷ [])

abbrev asked_text : Str
asked_text =
    lit
      "{\"messages\":[{\"content\":\"hi\",\"role\":\"user\"}],\"model\":\"gpt-5.2\",\"stream\":true}"

abbrev asked : Value
asked = obj (
    (
      lit "messages",
      arr (obj ((lit "content", string (lit "hi")) ∷ (lit "role", string (lit "user")) ∷ []) ∷ []),
    )
    ∷ (lit "model", string (lit "gpt-5.2"))
    ∷ (lit "stream", bool true)
    ∷ [])

abbrev knows : External
knows = record (reads asked null) {
  from_str = λ text. if same text partial_text then ok partial_chunk else err (lit "no JSON");
}

abbrev abrupt : Send
abrupt _ = ok (record {
  status = 200;
  peer_certificate = none;
  header = λ _. none;
  bytes = err (lit "unexpected end");
  text = err (lit "unexpected end");
  bytes_stream = ok (lit "data: " ++ partial_text ++ lit "\n\n") ∷ err (lit "unexpected end") ∷ [];
})

-- The body of an answer, drained.
abbrev drained : Surface → Reply → Option AppState
unfolding poll_stream
drained surface reply = and_then reply.stream (λ pending.
    and_then (poll_stream knows surface (some 1700000000001) reply.state pending)
      (λ (passed_on, state). some state))

abbrev mid_stream_upstream_abort_produces_outcome_2_receipt : Bool
unfolding handle chat_completions drained get
mid_stream_upstream_abort_produces_outcome_2_receipt =
    let surface = chat_completions knows (decoders (lit "hi") no_response) in
    let reply = handle knows surface (by_caller asked_text) (test_app allow_all_policy) abrupt in
    reply.response.status == 200
    && holds (λ r. r.outcome == 2 && same r.provider_request_id (lit "1"))
        (and_then (drained surface reply)
          (λ state. and_then reply.response.receipt_header (get state.receipts)))

stream_tests : mid_stream_upstream_abort_produces_outcome_2_receipt ≡ true
unfolding handle authenticate respond check_policy dispatch stream_response begin_stream is_success
    resolve_receipt_id extract_bearer split_once to_lower trim trim_start trim_end keep_before
    is_whitespace identify_caller constant_time_eq as_bytes encode_char chat_completions
    parse_request blob_id_of sha256_of evaluate evaluate_deny evaluate_allow sign_and_store
    store_signed receipt_of response_parts stored_receipt with_upstream_meta start_streaming
    upstream_meta initial_state new_store insert get remove_char drained poll_stream end_stream
    sign_stream drive OpenAiStream.feed OpenAiStream.finish OpenAiStream.handle_line
    OpenAiStream.handle_data OpenAiStream.apply_chunk OpenAiStream.apply_choice
    OpenAiStream.apply_delta strip_prefix starts_with drain drain_loop split_line from_utf8_lossy
    decode decode_byte decode_end first_byte next_byte
stream_tests = refl
