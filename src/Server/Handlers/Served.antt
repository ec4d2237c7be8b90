-- ===== src/Server/Handlers/Served.antt =====
-- server.rs: a receipt that an answer names can be fetched.
use sekisho.Base.{none, some, ◌≡◌, refl, sym, ap, ◌∙◌, same_refl}
use sekisho.Text.{Str, Bytes}
use sekisho.Receipt.Stored.{StoredReceipt, ReceiptStore, stored_receipt, insert, get, wanted_id}
use sekisho.Receipt.Stored.Lookup.{get-insert}
use sekisho.External.{External}
use sekisho.Server.{AppState, Response, receipt_json, get_receipt}
use sekisho.Server.Surfaces.{Surface, Call, Send}
use sekisho.Server.Upstream.{Reply}
use sekisho.Server.Handlers.{handle}
use sekisho.Server.Handlers.Answers.{Answers, silent, receipted, streaming}
use sekisho.Server.Handlers.Answers.Handle.{handle-Answers}
use sekisho.Server.Handlers.Reachable.{IsAttested}

-- The answer of `GET /receipts/{id}` with a receipt.
abbrev pub found : StoredReceipt → Response
found stored = record { status = 200; body = receipt_json stored; receipt_header = none }

get_receipt-found :
    (state : AppState) (id : Str) (stored : StoredReceipt)
    → get state.receipts id ≡ some stored
    → get_receipt state id ≡ found stored
unfolding get_receipt
get_receipt-found state id stored h = rw (get_receipt, h) refl

get-newest :
    (store : ReceiptStore) (r : StoredReceipt)
    → wanted_id r.receipt_id ≡ r.receipt_id
    → get (insert store r) r.receipt_id ≡ some r
get-newest store r h = rw (get-insert store r r.receipt_id, h, same_refl r.receipt_id) refl

-- What `GET /receipts/{id}` answers with is attested.
pub record Served (x : External) (config_hash : Bytes) (response : Response) : Type 0 where
  pub stored : StoredReceipt
  pub attested : IsAttested x config_hash stored
  pub served : response ≡ found stored

module _ (x : External)
    (hex_plain : (bytes : Bytes) → wanted_id (x.hex_encode bytes) ≡ x.hex_encode bytes)
    (header_same : (text value : Str) → x.header_value text ≡ some value → value ≡ text) where
  Served-answer :
      (state : AppState) (reply : Reply) (id : Str)
      → Answers x state reply
      → reply.response.receipt_header ≡ some id
      → reply.stream ≡ none
      → Served x state.config.config_hash (get_receipt reply.state id)
  unfolding stored_receipt
  Served-answer state reply id (silent a b c) h n = absurd (cc (a, h))
  Served-answer state reply id (receipted payload timestamp_ms signature s a b c g) h n =
      let stored = stored_receipt x.hex_encode payload timestamp_ms signature in
      record {
        stored = stored;
        attested = record {
          payload = payload;
          timestamp_ms = timestamp_ms;
          signature = signature;
          signed = s.signed;
          configured = s.configured;
          stored_form = refl;
        };
        served = get_receipt-found reply.state id stored (
            ap (λ t. get t.receipts id) c
            ∙ ap (get (insert state.receipts stored))
                (header_same (x.hex_encode payload.receipt_id) id (sym a ∙ h))
            ∙ get-newest state.receipts stored (hex_plain payload.receipt_id));
      }
  Served-answer state reply id (streaming pending i a b c e) h n = absurd (cc (a, n))

  -- An answer that names a receipt and is no stream names one that can be fetched at once, by the id
  -- in the header: the receipt served is signed by the enclave, under the hash of its configuration.
  -- The hypotheses are that `hex::encode` writes lower-case digits and no dash, and that a header
  -- value is the text that it is made from.
  pub get_receipt-handle :
      (surface : Surface) (call : Call) (state : AppState) (send : Send) (id : Str)
      → (handle x surface call state send).response.receipt_header ≡ some id
      → (handle x surface call state send).stream ≡ none
      → Served x state.config.config_hash (get_receipt (handle x surface call state send).state id)
  get_receipt-handle surface call state send id =
      Served-answer state _ id (handle-Answers x surface call state send)
