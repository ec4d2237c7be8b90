-- ===== src/Receipt/Stored/Lookup.antt =====
-- What a client reads back from the store.
use mathlib.Core.List.{reverse, reverse-append}
use sekisho.Base.{
  ℕ, List, [], ◌∷◌, ◌≡◌, refl, ap, arith, length, drop, leb, if◌then◌else◌, some, find, same, ◌==◌,
}
use sekisho.Text.{Str, to_lower, remove_char}
use sekisho.Receipt.Stored.History.{last, insert_all, entries-insert_all}
use Prim.Native.Nat.{max}
use sekisho.Receipt.Stored.{StoredReceipt, ReceiptStore, new_store, insert, get, wanted_id}

-- An insert answers for its own id, and leaves the others to what it kept.
pub get-insert :
    (store : ReceiptStore) (r : StoredReceipt) (id : Str)
    → get (insert store r) id ≡ (
        if same r.receipt_id (wanted_id id)
        then some r
        else get
            (record store {
              entries =
                  if leb store.capacity (length store.entries)
                  then drop 1 store.entries
                  else store.entries;
            })
            id)
unfolding get insert
get-insert store r id = ap (find (λ e. same e.receipt_id (wanted_id id))) (
    reverse-append
      (if leb store.capacity (length store.entries) then drop 1 store.entries else store.entries)
      (r ∷ []))

-- A stored receipt is found by its id until `capacity` more are inserted, whatever the history:
-- `get` answers with the latest of the last `max capacity 1` receipts inserted whose id is the one
-- asked for, dashes and case aside, and with nothing if none of these has it.
pub get-insert_all :
    (capacity : ℕ) (rs : List StoredReceipt) (id : Str)
    → get (insert_all (new_store capacity) rs) id
      ≡ find (λ r. same r.receipt_id (wanted_id id)) (reverse (last (max capacity 1) rs))
unfolding get
get-insert_all capacity rs id =
    ap (λ es. find (λ r. same r.receipt_id (wanted_id id)) (reverse es))
      (entries-insert_all capacity rs)

to_lower_idem : (c : ℕ) → to_lower (to_lower c) ≡ to_lower c
unfolding to_lower
to_lower_idem c = ground arith

to_lower_dash : (c : ℕ) → (to_lower c == b'-') ≡ (c == b'-')
unfolding to_lower
to_lower_dash c = ground arith

wanted_id_idem : (id : Str) → wanted_id (wanted_id id) ≡ wanted_id id
unfolding remove_char
wanted_id_idem [] = refl
wanted_id_idem (c ∷ id) = ground (arith, wanted_id_idem id, to_lower_idem c, to_lower_dash c)

-- Asking with an id in any case and with dashes in any place is asking with the plain id.
get-wanted_id : (store : ReceiptStore) (id : Str) → get store (wanted_id id) ≡ get store id
unfolding get
get-wanted_id store id =
    ap (λ w. find (λ e. same e.receipt_id w) (reverse store.entries)) (wanted_id_idem id)
