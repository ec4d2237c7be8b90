-- ===== src/Server/Handlers/Runs.antt =====
-- The handlers at concrete requests.
use sekisho.Base.{true, [], ◌∷◌, none, some, ok, err, ◌≡◌, refl, ◌⊎◌, replicate}
use sekisho.Text.{
  Bytes, lit, split_once, to_lower, trim, trim_start, trim_end, keep_before, is_whitespace,
}
use sekisho.Fixtures.{external, hex, hex_plain, header_value_same, config, context}
use sekisho.Fixtures
use sekisho.Providers.OpenAi.{Decoders, parse_request}
use sekisho.Providers.OpenAi.Accumulator as OpenAiStream
use sekisho.Server.{AppState, initial_state, get_receipt}
use sekisho.Server.Receipts.{
  finish_error_receipt, sign_and_store, store_signed, signed_response, insert_receipt_header,
  receipt_of, error_parts, no_upstream_call,
}
use sekisho.Receipt.Stored.{stored_receipt}
use sekisho.Auth.{extract_bearer, identify_caller, constant_time_eq}
use sekisho.Policy.Evaluate.{evaluate, evaluate_deny, evaluate_allow}
use sekisho.Canonical.Serialize.{blob_id_of}
use sekisho.Text.Utf8.{as_bytes, encode_char}
use sekisho.Server.Handlers.Served.{Served, get_receipt-handle}
use sekisho.Server.Surfaces.{Surface, Call, Send, drive, chat_completions}
use sekisho.Server.Upstream.{Pending, Reply, poll_stream, sign_stream, end_stream}
use sekisho.Server.Handlers.{
  acquire, release, authenticate, respond, check_policy, resolve_receipt_id, handle,
}
use sekisho.Server.Handlers.Answers.{Answers}
use sekisho.Server.Handlers.Answers.Handle.{handle-Answers}
use sekisho.Server.Handlers.Gate.{Admitted, handle-Admitted}
use sekisho.Server.Handlers.Streams.{Issues, poll_stream-Issues}
use sekisho.Server.Handlers.Reachable.{
  Flight, Counted, started, admitted, returned, Reachable-Counted,
}

abbrev decoders : Decoders
decoders = record {
  request_fields = λ _. ok (record {
    model = lit "gpt-4o";
    messages = [];
    max_tokens = some 100;
    temperature = none;
    tools = none;
    tool_choice = none;
  });
  response = λ _. err (lit "no response");
  usage = λ _. err (lit "no usage");
}

abbrev chat : Surface
chat = chat_completions external decoders

abbrev call : Call
call = record {
  headers = record { authorization = some (some (lit "Bearer key")); nonce = none };
  body = b'{' ∷ b'}' ∷ [];
  clock = some 1700000000000;
  uuid = replicate 16 5;
}

abbrev refused : Send
refused _ = err (lit "connection refused")

abbrev timed_out : Send
timed_out _ = err (lit "timed out")

abbrev stream : Pending
stream = record {
  ctx = context;
  model_hint = lit "gpt-4o";
  upstream = ok (lit "data: [DONE]\n") ∷ err (lit "reset") ∷ [];
}

handle-Admitted_example :
    (handle external chat call Fixtures.state refused
      ≡ handle external chat call Fixtures.state timed_out)
    ⊎ Admitted external chat call Fixtures.state
handle-Admitted_example = handle-Admitted external chat call Fixtures.state refused timed_out

handle-Answers_example :
    Answers external Fixtures.state (handle external chat call Fixtures.state refused)
handle-Answers_example = handle-Answers external chat call Fixtures.state refused

abbrev fed : OpenAiStream.StreamAccumulator
fed = OpenAiStream.feed external decoders OpenAiStream.new (lit "data: [DONE]\n")

abbrev after_stream : AppState
after_stream =
    sign_stream external chat (some 1700000000001) Fixtures.state stream
      (OpenAiStream.finish external decoders fed.accumulated (lit "gpt-4o")) true

poll_stream_run :
    poll_stream external chat (some 1700000000001) Fixtures.state stream
    ≡ some (lit "data: [DONE]\n" ∷ [], after_stream)
unfolding poll_stream end_stream chat_completions drive
poll_stream_run = refl

poll_stream-Issues_example : Issues external Fixtures.state context.receipt_id after_stream
poll_stream-Issues_example =
    poll_stream-Issues external chat (some 1700000000001) Fixtures.state stream
      (lit "data: [DONE]\n" ∷ []) after_stream poll_stream_run

abbrev fresh : AppState
unfolding initial_state
fresh = initial_state config (lit "https://a") (lit "https://o")

abbrev flight : Flight external
flight = record { surface = chat; call = call; caller_key = lit "key" }

authenticate_run : authenticate external fresh call.headers ≡ some (lit "key")
unfolding authenticate extract_bearer split_once to_lower trim trim_start trim_end keep_before
    is_whitespace identify_caller constant_time_eq as_bytes encode_char initial_state
authenticate_run = refl

abbrev held : AppState
unfolding initial_state
held = record fresh { permits = 15 }

acquire_run : acquire fresh ≡ some held
unfolding initial_state
acquire_run = refl

-- One request is admitted and answered.
Reachable-Counted_example :
    Counted external config
      (lit "https://a")
      (lit "https://o")
      (release (respond external chat call held refused (lit "key"))).state
      []
unfolding initial_state fresh
Reachable-Counted_example =
    Reachable-Counted external config (lit "https://a") (lit "https://o")
      (release (respond external chat call held refused (lit "key"))).state []
      (returned [] flight [] held refused
        (admitted flight [] fresh held started authenticate_run acquire_run))

-- A request that the policy denies, since it has no rule.
abbrev denied : Reply
denied = handle external chat call Fixtures.state refused

denied_names :
    (denied.response.receipt_header ≡ some (hex (replicate 16 5))) × (denied.stream ≡ none)
unfolding handle authenticate respond check_policy resolve_receipt_id extract_bearer split_once
    to_lower trim trim_start trim_end keep_before is_whitespace identify_caller constant_time_eq
    as_bytes encode_char chat_completions parse_request blob_id_of evaluate evaluate_deny
    evaluate_allow finish_error_receipt sign_and_store store_signed signed_response
    insert_receipt_header receipt_of error_parts stored_receipt no_upstream_call
denied_names = (refl, refl)

get_receipt-handle_example :
    Served external (replicate 32 7) (get_receipt denied.state (hex (replicate 16 5)))
get_receipt-handle_example =
    get_receipt-handle external hex_plain header_value_same chat call Fixtures.state refused
      (hex (replicate 16 5)) denied_names.0 denied_names.1

abbrev nonce_bytes : Bytes
nonce_bytes = replicate 16 5
