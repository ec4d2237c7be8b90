-- ===== src/Server/Handlers/Nonce.antt =====
-- server.rs: the ids of receipts.
mod Tests
use sekisho.Base.{none, some, ok, Result-cases, ◌≡◌, length, arith}
use sekisho.Text.{Bytes, trim}
use sekisho.External.{External}
use sekisho.Server.Surfaces.{Header}
use sekisho.Server.Handlers.{resolve_receipt_id}

-- Whatever nonce a client sends, an id that is accepted has the sixteen bytes of a UUID.
pub length-resolve_receipt_id :
    (x : External) (uuid : Bytes) (nonce : Header) (receipt_id : Bytes)
    → length uuid ≡ 16
    → resolve_receipt_id x uuid nonce ≡ ok receipt_id
    → length receipt_id ≡ 16
unfolding resolve_receipt_id
length-resolve_receipt_id x uuid none id h e = cc (h, e)
length-resolve_receipt_id x uuid (some none) id h e = absurd (cc e)
length-resolve_receipt_id x uuid (some (some raw)) id h e =
    ground (arith, Result-cases (x.decode_hex (trim raw)))
