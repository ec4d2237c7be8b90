-- ===== src/Receipt/Stored.antt =====
-- receipt.rs: the receipt as it is stored and served, and the bounded store.
pub mod History
pub mod Lookup
use Prim.Native.Nat.{max}
use mathlib.Core.List.{reverse}
use sekisho.Base.{ℕ, List, [], ◌∷◌, ◌++◌, Option, leb, if◌then◌else◌, length, find, drop, same}
use sekisho.Text.{Str, Bytes, remove_char, to_ascii_lowercase}
use sekisho.Receipt.{Receipt}

pub record StoredReceipt : Type 0 where
  pub receipt_id : Str
  pub timestamp_ms : ℕ
  pub config_hash : Str
  pub provider : ℕ
  pub endpoint_host : Str
  pub tls_cert_sha256 : Str
  pub request_blob : Str
  pub upstream_request_blob : Str
  pub upstream_headers_hash : Str
  pub model_id : Str
  pub provider_request_id : Str
  pub response_blob : Str
  pub provider_meta_hash : Str
  pub input_tokens : ℕ
  pub cache_creation_tokens : ℕ
  pub cache_read_tokens : ℕ
  pub output_tokens : ℕ
  pub outcome : ℕ
  pub signature : Str

-- `StoredReceipt::new`; `hex_encode` is the `encode` of the crate `hex`.
unfoldable pub stored_receipt : (Bytes → Str) → Receipt → ℕ → Bytes → StoredReceipt
stored_receipt hex_encode payload timestamp_ms signature = record {
  receipt_id = hex_encode payload.receipt_id;
  timestamp_ms = timestamp_ms;
  config_hash = hex_encode payload.config_hash;
  provider = payload.provider;
  endpoint_host = payload.endpoint_host;
  tls_cert_sha256 = hex_encode payload.tls_cert_sha256;
  request_blob = hex_encode payload.request_blob;
  upstream_request_blob = hex_encode payload.upstream_request_blob;
  upstream_headers_hash = hex_encode payload.upstream_headers_hash;
  model_id = payload.model_id;
  provider_request_id = payload.provider_request_id;
  response_blob = hex_encode payload.response_blob;
  provider_meta_hash = hex_encode payload.provider_meta_hash;
  input_tokens = payload.input_tokens;
  cache_creation_tokens = payload.cache_creation_tokens;
  cache_read_tokens = payload.cache_read_tokens;
  output_tokens = payload.output_tokens;
  outcome = payload.outcome;
  signature = hex_encode signature;
}

abbrev pub default_ring_buffer_size : ℕ
default_ring_buffer_size = 4096

-- The lock holds the entries, the oldest first; a poisoned lock still gives them out.
pub record ReceiptStore : Type 0 where
  pub capacity : ℕ
  pub entries : List StoredReceipt

unfoldable pub new_store : ℕ → ReceiptStore
new_store capacity = record { capacity = max capacity 1; entries = [] }

unfoldable pub insert : ReceiptStore → StoredReceipt → ReceiptStore
insert store receipt =
    let kept =
      if leb store.capacity (length store.entries) then drop 1 store.entries else store.entries in
    record store { entries = kept ++ receipt ∷ [] }

-- The id as `get` looks for it.
abbrev pub wanted_id : Str → Str
wanted_id receipt_id = to_ascii_lowercase (remove_char b'-' receipt_id)

unfoldable pub get : ReceiptStore → Str → Option StoredReceipt
get store receipt_id =
    find (λ entry. same entry.receipt_id (wanted_id receipt_id)) (reverse store.entries)
