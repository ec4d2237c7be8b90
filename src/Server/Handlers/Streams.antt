-- ===== src/Server/Handlers/Streams.antt =====
-- server.rs: the body of a streamed answer, and the receipt at its end.
use mathlib.Core.List.{foldl}
use mathlib.Core.Path.{subst}
use sekisho.Base.{
  ℕ, Bool, true, false, List, [], ◌∷◌, Option, none, some, Result, ok, err, Result-cases, inl, inr,
  ◌≡◌, refl, ap, any, arith,
}
use sekisho.Text.{Str, Bytes}
use sekisho.Canonical.Serialize.{sha256_of, blob_id_of, response_value, meta_value}
use sekisho.Receipt.{Receipt, serialize_intent_message}
use sekisho.External.{External}
use sekisho.Server.{AppState, ReceiptParts, current_timestamp_ms}
use sekisho.Server.Receipts.{receipt_of, sign_and_store, store_signed, response_parts}
use sekisho.Server.Surfaces.{Surface, Decoded, drive}
use sekisho.Server.Upstream.{Pending, sign_stream, end_stream, poll_stream}
use sekisho.Server.Handlers.Answers.{IsSigned, stored_in}

-- The chunks before the first transport error, and whether there is one.
abbrev pub received : List (Result Bytes Str) → List Bytes
received [] = []
received (err e ∷ chunks) = []
received (ok bytes ∷ chunks) = bytes ∷ received chunks

abbrev pub is_err : Result Bytes Str → Bool
is_err (ok _) = false
is_err (err _) = true

-- The loop over a stream's body feeds the accumulator, and passes on to the client, the chunks before
-- the first transport error: all of them, in order, unchanged. It reports an error if there is one.
pub drive-received {ℓ} :
    {A : Type ℓ} (feed : A → Bytes → A) (acc : A) (chunks : List (Result Bytes Str))
    → drive feed acc chunks ≡ (foldl feed acc (received chunks), received chunks, any is_err chunks)
unfolding drive
drive-received feed acc [] = refl
drive-received feed acc (err e ∷ chunks) = refl
drive-received feed acc (ok bytes ∷ chunks) =
    ap (λ r. (r.0, bytes ∷ r.1, r.2)) (drive-received feed (feed acc bytes) chunks)

module _ (x : External) where
  -- What a stream's end does to the state: nothing, or one receipt more, whose id is the pending one.
  pub data Issues (state : AppState) (receipt_id : Bytes) (next : AppState) : Type 0 where
    unchanged : next ≡ state → Issues state receipt_id next
    issued :
        (payload : Receipt) (timestamp_ms : ℕ) (signature : Bytes)
        → IsSigned x state payload timestamp_ms signature
        → payload.receipt_id ≡ receipt_id
        → next ≡ stored_in x state payload timestamp_ms signature
        → Issues state receipt_id next

  store_signed-Issues :
      (state : AppState) (payload : Receipt) (timestamp_ms : ℕ) (result : Result Bytes Str)
      → x.sign (serialize_intent_message payload timestamp_ms) ≡ result
      → payload.config_hash ≡ state.config.config_hash
      → Issues state payload.receipt_id (store_signed x state payload timestamp_ms result).1
  unfolding store_signed
  store_signed-Issues state payload timestamp_ms (err e) s c = unchanged refl
  store_signed-Issues state payload timestamp_ms (ok signature) s c =
      issued payload timestamp_ms signature (record { signed = s; configured = c }) refl refl

  sign_and_store-Issues :
      (clock : Option ℕ) (state : AppState) (parts : ReceiptParts)
      → Issues state parts.receipt_id (sign_and_store x clock state parts).1
  unfolding sign_and_store receipt_of
  sign_and_store-Issues clock state parts =
      store_signed-Issues state (receipt_of x state.config parts) (current_timestamp_ms clock) _
        refl refl

  module _ (surface : Surface) where
    sign_stream-Issues :
        (clock : Option ℕ) (state : AppState) (pending : Pending) (decoded : Decoded)
        (failed : Bool)
        → Issues state pending.ctx.receipt_id
            (sign_stream x surface clock state pending decoded failed)
    unfolding sign_stream response_parts
    sign_stream-Issues clock state pending (response, meta, request_id) failed =
        elim (Result-cases (blob_id_of x.hashing (response_value response))) [
          | inr (e, b) ↦ rw (sign_stream, b) (unchanged refl)
          | inl (blob, b) ↦ elim (Result-cases (sha256_of x.hashing (meta_value meta))) [
            | inr (e, m) ↦ rw (sign_stream, b, m) (unchanged refl)
            | inl (meta_hash, m) ↦ rw (sign_stream, b, m) (sign_and_store-Issues clock state _)
          ]
        ]

    end_stream-Issues :
        (clock : Option ℕ) (state : AppState) (pending : Pending)
        (end : Option Decoded × List Bytes × Bool) (passed_on : List Bytes) (next : AppState)
        → end_stream x surface clock state pending end ≡ some (passed_on, next)
        → Issues state pending.ctx.receipt_id next
    unfolding end_stream
    end_stream-Issues clock state pending (none, out, failed) passed_on next h =
        absurd (ground arith)
    end_stream-Issues clock state pending (some decoded, out, failed) passed_on next h =
        let e : sign_stream x surface clock state pending decoded failed ≡ next = cc h in
        subst (Issues state pending.ctx.receipt_id) e
          (sign_stream-Issues clock state pending decoded failed)

    -- The end of a stream changes nothing but the store, and adds at most one receipt to it: one
    -- that is signed, under the configuration's hash, and has the id that the stream's header gave.
    pub poll_stream-Issues :
        (clock : Option ℕ) (state : AppState) (pending : Pending) (passed_on : List Bytes)
        (next : AppState)
        → poll_stream x surface clock state pending ≡ some (passed_on, next)
        → Issues state pending.ctx.receipt_id next
    unfolding poll_stream
    poll_stream-Issues clock state pending passed_on next h =
        end_stream-Issues clock state pending _ passed_on next h
