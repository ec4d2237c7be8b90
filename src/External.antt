-- ===== src/External.antt =====
-- The crates that the enclave calls and does not contain, as parameters.
use sekisho.Base.{ℕ, Bool, Option, Result}
use sekisho.Text.{Str, Bytes}
use sekisho.Json.{Value}
use sekisho.Canonical.Serialize.{Hashing}

-- `hashing`: serde_json's writer, sha2 and walrus-core. `from_slice`, `from_str` and `to_text` are
-- serde_json's, with the text of their errors. `hex_encode` is hex's, `decode_hex` and `sign` are
-- nautilus's, `header_value` is http's `HeaderValue::from_str`, `debug` is `{:?}` on a string,
-- `ct_eq` is subtle's comparison, and `max_blocks` is the length up to which a vector of blocks grows:
-- beyond it `Vec::push` panics, where the capacity would overflow, or aborts, where memory is out.
pub record External : Type 0 where
  pub hashing : Hashing
  pub open hashing use *
  pub from_slice : Bytes → Result Value Str
  pub from_str : Str → Result Value Str
  pub to_text : Value → Str
  pub hex_encode : Bytes → Str
  pub decode_hex : Str → Result Bytes Str
  pub sign : Bytes → Result Bytes Str
  pub header_value : Str → Option Str
  pub debug : Str → Str
  pub ct_eq : Bytes → Bytes → Bool
  pub max_blocks : ℕ
