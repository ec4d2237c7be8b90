-- ===== src/Fixtures.antt =====
-- Concrete crates, keys and receipts for the tests: a `sign` that gives the message back, a hash that
-- is constant, and the hex of the crate `hex`.
use sekisho.Base.{
  ℕ, ◌<◌, Bool, true, ◌&&◌, All, inl, ◌/◌, ltb, List, [], ◌∷◌, none, some, Result, ok, err, ◌≡◌,
  refl, arith, if◌then◌else◌, same, replicate,
}
pub use sekisho.Text.Hex.{hex}
use sekisho.Text.Hex.{digit}
use sekisho.Text.{Str, Bytes, lit, to_lower, remove_char}
use sekisho.Receipt.Stored.{wanted_id}
use sekisho.Text.Utf8.{as_bytes, encode_char, IsScalar}
use sekisho.Json.{Value, null, number, pos_int, array, object, of_list, object_of}
use sekisho.External.{External}
use sekisho.Receipt.{Receipt}
use sekisho.Receipt.Reader.RoundTrip.{IsReceipt, IsText}
use sekisho.Config.{AppConfig}
use sekisho.Server.{AppState, CallContext}

digit_lower : (n : ℕ) → to_lower (digit n) ≡ digit n
unfolding to_lower
digit_lower n = ground arith

-- Hex is written without capitals and dashes.
pub hex_plain : (bytes : Bytes) → wanted_id (hex bytes) ≡ hex bytes
unfolding remove_char
hex_plain [] = refl
hex_plain (b ∷ bs) = ground (arith, hex_plain bs, digit_lower (b / 16), digit_lower b)

abbrev pub external : External
external = record {
  hashing = record {
    to_vec = λ _. ok (b'{' ∷ b'}' ∷ []);
    sha256 = λ _. replicate 32 7;
    compute_blob_id = λ _. ok (replicate 32 9);
  };
  from_slice = λ _. ok null;
  from_str = λ _. ok null;
  to_text = λ _. lit "null";
  hex_encode = hex;
  decode_hex = λ _. ok (replicate 16 5);
  sign = λ message. ok message;
  header_value = some;
  debug = λ text. text;
  ct_eq = same;
  max_blocks = 1000000;
}

pub header_value_same : (text value : Str) → external.header_value text ≡ some value → value ≡ text
header_value_same text value h = cc h

abbrev pub receipt : Receipt
receipt = record {
  receipt_id = replicate 16 5;
  config_hash = replicate 32 7;
  provider = 1;
  endpoint_host = lit "api.openai.com";
  tls_cert_sha256 = replicate 32 0;
  request_blob = replicate 32 9;
  upstream_request_blob = replicate 32 9;
  upstream_headers_hash = replicate 32 7;
  model_id = lit "gpt-4o";
  provider_request_id = lit "req-1";
  response_blob = replicate 32 9;
  provider_meta_hash = replicate 32 7;
  input_tokens = 12;
  cache_creation_tokens = 0;
  cache_read_tokens = 3;
  output_tokens = 4;
  outcome = 0;
}

abbrev is_ascii : Str → Bool
is_ascii [] = true
is_ascii (c ∷ s) = let rest = is_ascii s in ltb c 128 && rest

-- ASCII texts consist of scalar values.
pub ascii-IsScalar : (s : Str) → is_ascii s ≡ true → All IsScalar s
ascii-IsScalar [] h = tt
ascii-IsScalar (c ∷ s) h = (inl (ground arith), ascii-IsScalar s (ground arith))

-- The receipt has the sizes of its types.
abbrev pub signed_at : ℕ
signed_at = 1700000000000

pub host-IsText : IsText (lit "api.openai.com")
unfolding as_bytes encode_char
host-IsText = (ascii-IsScalar (lit "api.openai.com") refl, omega arith)

pub model-IsText : IsText (lit "gpt-4o")
unfolding as_bytes encode_char
model-IsText = (ascii-IsScalar (lit "gpt-4o") refl, omega arith)

pub request_id-IsText : IsText (lit "req-1")
unfolding as_bytes encode_char
request_id-IsText = (ascii-IsScalar (lit "req-1") refl, omega arith)

pub receipt-IsReceipt : IsReceipt receipt
receipt-IsReceipt = record {
  receipt_id = refl;
  config_hash = refl;
  endpoint_host = host-IsText;
  tls_cert_sha256 = refl;
  request_blob = refl;
  upstream_request_blob = refl;
  upstream_headers_hash = refl;
  model_id = model-IsText;
  provider_request_id = request_id-IsText;
  response_blob = refl;
  provider_meta_hash = refl;
  input_tokens = omega arith;
  cache_creation_tokens = omega arith;
  cache_read_tokens = omega arith;
  output_tokens = omega arith;
}

-- A configuration with one caller, no policy rule and no provider.
abbrev pub config : AppConfig
config = record {
  anthropic_api_key = none;
  openai_api_key = none;
  caller_keys = lit "key" ∷ [];
  policy = record { deny_rules = []; allow_rules = [] };
  max_body_bytes = 1048576;
  concurrency_limit = 16;
  receipt_ring_buffer_size = 4096;
  config_hash = replicate 32 7;
}

abbrev pub state : AppState
state = record {
  config = config;
  permits = 16;
  receipts = record { capacity = 4096; entries = [] };
  anthropic_base_url = lit "https://api.anthropic.com";
  openai_base_url = lit "https://api.openai.com";
}

abbrev pub context : CallContext
context = record {
  receipt_id = replicate 16 5;
  provider = 1;
  endpoint_host = lit "api.openai.com";
  request_blob = replicate 32 9;
  upstream_request_blob = replicate 32 9;
  upstream_headers_hash = replicate 32 7;
  tls_cert_sha256 = replicate 32 0;
  provider_request_id = [];
}

pub ascii-All : (s : Str) → is_ascii s ≡ true → All (λ c. c < 0x80) s
ascii-All [] h = tt
ascii-All (c ∷ s) h = (ground arith, ascii-All s (ground arith))

-- JSON objects, arrays and numbers.
abbrev pub obj : List (Str × Value) → Value
obj fields = object (object_of fields)

abbrev pub arr : List Value → Value
arr values = array (of_list values)

abbrev pub num : ℕ → Value
num n = number (pos_int n)

-- Crates whose JSON parser knows the texts of a table.
abbrev parse : List (Str × Value) → Str → Result Value Str
parse [] s = err (lit "not in the table")
parse ((t, value) ∷ table) s = let rest = parse table s in if same t s then ok value else rest

abbrev pub knows : List (Str × Value) → External
knows table = record external { from_str = parse table }
