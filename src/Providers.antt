-- ===== src/Providers.antt =====
-- providers/mod.rs: what the two provider adapters share, and reqwest's view of an HTTP exchange.
pub mod Requests
pub mod Drained
mod Runs
pub mod Stream
pub mod OpenAi
pub mod Anthropic
use sekisho.Base.{
  ℕ, ◌+◌, Bool, true, List, [], ◌∷◌, ◌++◌, Option, none, some, Result, ok, err, if◌then◌else◌, same,
  unwrap_or, map_option,
}
use sekisho.Text.{Str, Bytes, lit}
use sekisho.Text.Utf8.{from_utf8_lossy}
use sekisho.Text.Decimal.{decimal}
use sekisho.Json.{Value, object, string, bool, number, pos_int, null, object_of, before}
use sekisho.Canonical.{CanonicalHeaders}
use sekisho.Canonical.Serialize.{zero32}
use sekisho.External.{External}

pub data ProviderError : Type 0 where
  not_configured : ProviderError
  decode_error : Str → ProviderError
  transport_error : Str → ProviderError
  upstream_status : (status : ℕ) (body : Str) → ProviderError

-- The `#[error]` texts.
abbrev pub error_text : ProviderError → Str
error_text not_configured = lit "provider not configured (missing API key)"
error_text (decode_error e) = lit "failed to decode request/response JSON: " ++ e
error_text (transport_error e) = lit "upstream transport error: " ++ e
error_text (upstream_status status body) =
    lit "upstream returned status " ++ decimal status ++ lit ": " ++ body

-- `ErrorResponseRecord`, which is only serialized.
pub record ErrorResponseRecord : Type 0 where
  pub error : Bool
  pub status : Option ℕ
  pub message : Str

abbrev status_value : Option ℕ → Value
status_value none = null
status_value (some n) = number (pos_int n)

pub error_record_value : ErrorResponseRecord → Value
error_record_value r = object (
    object_of (
      (lit "error", bool r.error)
      ∷ (lit "status", status_value r.status)
      ∷ (lit "message", string r.message)
      ∷ []))

abbrev pub redacted_header_value : Str
redacted_header_value = lit "redacted"

pub record UpstreamMeta : Type 0 where
  pub upstream_headers : CanonicalHeaders
  pub tls_cert_sha256 : Bytes
  pub request_id_header : Option Str

-- A request as it is handed to reqwest, and what reqwest gives back: the leaf certificate, the
-- headers that are text, and the three ways to take the body.
pub record HttpRequest : Type 0 where
  pub url : Str
  pub headers : List (Str × Str)
  pub body : Value

pub record HttpResponse : Type 0 where
  pub status : ℕ
  pub peer_certificate : Option Bytes
  pub header : Str → Option Str
  pub bytes : Result Bytes Str
  pub text : Result Str Str
  pub bytes_stream : List (Result Bytes Str)

-- `BTreeMap::insert` into the sorted headers.
abbrev pub insert_header : Str → Str → CanonicalHeaders → CanonicalHeaders
insert_header name value [] = (name, value) ∷ []
insert_header name value ((n, v) ∷ hs) =
    let rest = insert_header name value hs in
    if same name n
    then (n, value) ∷ hs
    else if before name n
    then (name, value) ∷ (n, v) ∷ hs
    else (n, v) ∷ rest

module _ (x : External) where
  open x use {to_vec, from_slice, sha256, hex_encode, header_value}

  -- The closure `set` of both `upstream_headers`, on the headers to send and their record.
  pub set_header :
      Str → Str → Bool → List (Str × Str) × CanonicalHeaders → List (Str × Str) × CanonicalHeaders
  set_header name value secret (headers, canonical) = (
    elim (header_value value) [ none ↦ headers | some header ↦ headers ++ (name, header) ∷ [] ],
    insert_header name (if secret then redacted_header_value else value) canonical,
  )

  -- `upstream_meta` of both adapters, at their `REQUEST_ID_HEADER`.
  unfoldable pub upstream_meta : Str → HttpResponse → CanonicalHeaders → UpstreamMeta
  upstream_meta request_id_header response upstream_headers = record {
    upstream_headers = upstream_headers;
    tls_cert_sha256 = unwrap_or zero32 (map_option sha256 response.peer_certificate);
    request_id_header = response.header request_id_header;
  }

  -- The end of both `call_non_streaming`: the body of a response, read as JSON.
  unfoldable pub read_json :
      Str → HttpResponse → CanonicalHeaders → Result (ℕ × Value × UpstreamMeta) ProviderError
  unfolding upstream_meta
  read_json request_id_header response canonical_headers = elim response.bytes [
    | err e ↦ err (transport_error e)
    | ok bytes ↦ elim (from_slice bytes) [
      | err e ↦ err (decode_error (e ++ lit " (body: " ++ from_utf8_lossy bytes ++ lit ")"))
      | ok json ↦
          ok (response.status, json, upstream_meta request_id_header response canonical_headers)
    ]
  ]

  -- `opaque_descriptor` of both adapters.
  pub opaque_descriptor : Value → Str
  opaque_descriptor value =
      hex_encode (sha256 (elim (to_vec value) [ ok bytes ↦ bytes | err _ ↦ [] ]))
