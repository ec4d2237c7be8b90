-- ===== src/Receipt/Stored/History.antt =====
-- The store against the history of its inserts.
use Prim.Native.Nat.{max}
use mathlib.Core.List.{append_assoc, append-nil}
use mathlib.Core.Path.{subst}
use native.Mathlib.Decide.{dec_le}
use sekisho.Base.{
  ℕ, zero, suc, ◌+◌, ◌-◌, ◌≤◌, ◌<◌, List, [], ◌∷◌, ◌++◌, ◌≡◌, refl, sym, ap, ◌∙◌, arith, length,
  length-append, drop, leb, if◌then◌else◌, true, false,
}
use sekisho.Receipt.Stored.{StoredReceipt, ReceiptStore, new_store, insert}

-- The last `n` items of a list.
abbrev pub last {ℓ} : {A : Type ℓ} → ℕ → List A → List A
last n xs = drop (length xs - n) xs

abbrev pub insert_all : ReceiptStore → List StoredReceipt → ReceiptStore
insert_all store [] = store
insert_all store (r ∷ rs) = insert_all (insert store r) rs

length-drop {ℓ} : {A : Type ℓ} (n : ℕ) (xs : List A) → length (drop n xs) ≡ length xs - n
length-drop zero xs = omega arith
length-drop (suc n) [] = omega arith
length-drop (suc n) (x ∷ xs) = omega (arith, length-drop n xs)

drop-append {ℓ} :
    {A : Type ℓ} (n : ℕ) (xs ys : List A) → n ≤ length xs → drop n (xs ++ ys) ≡ drop n xs ++ ys
drop-append zero xs ys h = refl
drop-append (suc n) [] ys h = absurd (omega arith)
drop-append (suc n) (x ∷ xs) ys h = drop-append n xs ys (omega arith)

drop-nil {ℓ} : {A : Type ℓ} (n : ℕ) → ◌≡◌ {A = List A} (drop n []) []
drop-nil zero = refl
drop-nil (suc n) = refl

drop-drop_one {ℓ} : {A : Type ℓ} (n : ℕ) (xs : List A) → drop 1 (drop n xs) ≡ drop (suc n) xs
drop-drop_one zero [] = refl
drop-drop_one zero (x ∷ xs) = refl
drop-drop_one (suc n) [] = refl
drop-drop_one (suc n) (x ∷ xs) = drop-drop_one n xs

-- The store holds the last `capacity` receipts of a history.
record Holds (store : ReceiptStore) (history : List StoredReceipt) : Type 0 where
  capacity_pos : 0 < store.capacity
  entries_last : store.entries ≡ last store.capacity history

leb_of_le : (a b : ℕ) → a ≤ b → leb a b ≡ true
leb_of_le a b h = ground arith

leb_of_lt : (a b : ℕ) → b < a → leb a b ≡ false
leb_of_lt a b h = ground arith

-- The entries after an insert.
abbrev pushed {ℓ} : {A : Type ℓ} → ℕ → List A → A → List A
pushed cap xs r = (if leb cap (length xs) then drop 1 xs else xs) ++ r ∷ []

module _ {ℓ} {A : Type ℓ} (n : ℕ) (h : List A) (r : A) where
  grown : length (h ++ r ∷ []) ≡ length h + 1
  grown = ground (arith, length-append h (r ∷ []))

  pushed_full : n ≤ length h → 0 < n → pushed n (last n h) r ≡ last n (h ++ r ∷ [])
  pushed_full le pos =
      ap (λ b. (if b then drop 1 (last n h) else last n h) ++ r ∷ [])
        (leb_of_le n (length (last n h)) (omega (arith, length-drop (length h - n) h)))
      ∙ ap (λ xs. xs ++ r ∷ []) (drop-drop_one (length h - n) h)
      ∙ sym (drop-append (suc (length h - n)) h (r ∷ []) (omega arith))
      ∙ ap (λ k. drop k (h ++ r ∷ [])) {x = suc (length h - n)} {y = length (h ++ r ∷ []) - n}
          (omega (arith, grown))

  whole : (xs : List A) → length xs ≤ n → last n xs ≡ xs
  whole xs le = ap (λ k. drop k xs) {y = 0} (omega arith)

  pushed_room : length h < n → pushed n (last n h) r ≡ last n (h ++ r ∷ [])
  pushed_room lt =
      ap (λ xs. pushed n xs r) (whole h (omega arith))
      ∙ ap (λ b. (if b then drop 1 h else h) ++ r ∷ []) (leb_of_lt n (length h) lt)
      ∙ sym (whole (h ++ r ∷ []) (omega (arith, grown)))

  pushed-last : 0 < n → pushed n (last n h) r ≡ last n (h ++ r ∷ [])
  pushed-last pos = elim (dec_le n (length h)) [
    | yes le ↦ pushed_full le pos
    | no gt ↦ pushed_room (omega arith)
  ]

insert-Holds :
    (store : ReceiptStore) (history : List StoredReceipt) (r : StoredReceipt)
    → Holds store history
    → Holds (insert store r) (history ++ r ∷ [])
unfolding insert
insert-Holds store history r h = record {
  capacity_pos = h.capacity_pos;
  entries_last =
      ap (λ xs. pushed store.capacity xs r) h.entries_last
      ∙ pushed-last store.capacity history r h.capacity_pos;
}

insert_all-Holds :
    (rs history : List StoredReceipt) (store : ReceiptStore)
    → Holds store history
    → Holds (insert_all store rs) (history ++ rs)
insert_all-Holds [] history store h = subst (Holds store) (sym (append-nil history)) h
insert_all-Holds (r ∷ rs) history store h =
    subst (Holds (insert_all (insert store r) rs)) (append_assoc history (r ∷ []) rs)
      (insert_all-Holds rs (history ++ r ∷ []) (insert store r) (insert-Holds store history r h))

-- The capacity does not change.
capacity-insert_all :
    (rs : List StoredReceipt) (store : ReceiptStore)
    → (insert_all store rs).capacity ≡ store.capacity
unfolding insert
capacity-insert_all [] store = refl
capacity-insert_all (r ∷ rs) store = capacity-insert_all rs (insert store r)

-- Whatever is inserted into a new store, it then holds the last `max capacity 1` receipts of it, in
-- the order of the inserts, and no other.
pub entries-insert_all :
    (capacity : ℕ) (rs : List StoredReceipt)
    → (insert_all (new_store capacity) rs).entries ≡ last (max capacity 1) rs
unfolding new_store
entries-insert_all capacity rs =
    (insert_all-Holds rs [] (new_store capacity) (record {
      capacity_pos = omega arith;
      entries_last = sym (drop-nil (0 - max capacity 1));
    })).entries_last
    ∙ ap (λ n. last n rs) (capacity-insert_all rs (new_store capacity))
