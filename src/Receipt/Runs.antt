-- ===== src/Receipt/Runs.antt =====
-- A receipt, its message and a store of two receipts.
use Prim.Native.Nat.{max}
use mathlib.Core.List.{reverse}
use sekisho.Base.{[], ◌∷◌, some, ◌≡◌, find, same, replicate, arith}
use sekisho.Text.{lit}
use sekisho.Receipt.{serialize_intent_message}
use sekisho.Receipt.Reader.{intent_message}
use sekisho.Receipt.Reader.RoundTrip.{read-serialize}
use sekisho.Receipt.Stored.{StoredReceipt, stored_receipt, new_store, get, wanted_id}
use sekisho.Receipt.Stored.History.{last, insert_all}
use sekisho.Receipt.Stored.Lookup.{get-insert_all}
use sekisho.Fixtures.{hex, receipt, signed_at, receipt-IsReceipt}

read-serialize_example :
    intent_message (serialize_intent_message receipt signed_at) ≡ some ((receipt, signed_at), [])
read-serialize_example = read-serialize receipt signed_at receipt-IsReceipt (omega arith)

abbrev first_receipt : StoredReceipt
unfolding stored_receipt
first_receipt = stored_receipt hex receipt signed_at (1 ∷ 2 ∷ [])

abbrev second_receipt : StoredReceipt
unfolding stored_receipt
second_receipt =
    stored_receipt hex (record receipt { receipt_id = replicate 16 6 }) 1700000000001 (3 ∷ 4 ∷ [])

get-insert_all_example :
    get (insert_all (new_store 2) (first_receipt ∷ second_receipt ∷ [])) (lit "0505-05")
    ≡ find
        (λ r. same r.receipt_id (wanted_id (lit "0505-05")))
        (reverse (last (max 2 1) (first_receipt ∷ second_receipt ∷ [])))
get-insert_all_example = get-insert_all 2 (first_receipt ∷ second_receipt ∷ []) (lit "0505-05")
