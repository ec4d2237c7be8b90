-- ===== src/Json.antt =====
-- `serde_json::Value` and the methods of it that the enclave calls. Objects are sorted by key, as
-- the crate keeps them without its feature `preserve_order`.
pub mod Objects
use sekisho.Base.{
  ℕ, zero, suc, Bool, true, false, List, [], ◌∷◌, Option, none, some, ltb, ◌==◌, if◌then◌else◌,
  same, and_then,
}
use sekisho.Text.{Str}

-- A number: a `u64`, a negative `i64` by its magnitude, or the bits of an `f64`.
pub data Number : Type 0 where
  pos_int : ℕ → Number
  neg_int : ℕ → Number
  float : ℕ → Number

mutual
  pub data Value : Type 0 where
    null : Value
    bool : Bool → Value
    number : Number → Value
    string : Str → Value
    array : Items → Value
    object : Fields → Value

  pub data Items : Type 0 where
    nil : Items
    cons : Value → Items → Items

  pub data Fields : Type 0 where
    end : Fields
    field : Str → Value → Fields → Fields

abbrev pub to_list : Items → List Value
to_list nil = []
to_list (cons v vs) = v ∷ to_list vs

abbrev pub of_list : List Value → Items
of_list [] = nil
of_list (v ∷ vs) = cons v (of_list vs)

-- `Map::get`.
abbrev pub lookup : Str → Fields → Option Value
lookup key end = none
lookup key (field k v fs) = let rest = lookup key fs in if same key k then some v else rest

-- The order of texts by their bytes, which is that by their code points.
abbrev pub before : Str → Str → Bool
before [] [] = false
before [] (y ∷ ys) = true
before (x ∷ xs) [] = false
before (x ∷ xs) (y ∷ ys) = let rest = before xs ys in if x == y then rest else ltb x y

-- `Map::insert` into the sorted fields.
abbrev pub insert_field : Str → Value → Fields → Fields
insert_field key v end = field key v end
insert_field key v (field k w fs) =
    let rest = insert_field key v fs in
    if same key k
    then field k v fs
    else if before key k
    then field key v (field k w fs)
    else field k w rest

-- `Value::get` at a key.
abbrev pub get : Str → Value → Option Value
get key (object fs) = lookup key fs
get key _ = none

abbrev pub as_str : Value → Option Str
as_str (string s) = some s
as_str _ = none

abbrev pub as_bool : Value → Option Bool
as_bool (bool b) = some b
as_bool _ = none

abbrev pub as_u64 : Value → Option ℕ
as_u64 (number (pos_int n)) = some n
as_u64 _ = none

abbrev pub as_array : Value → Option (List Value)
as_array (array vs) = some (to_list vs)
as_array _ = none

-- `value.get(key).and_then(Value::as_str)`, and so on.
abbrev pub get_str : Str → Value → Option Str
get_str key v = and_then (get key v) as_str

abbrev pub get_u64 : Str → Value → Option ℕ
get_u64 key v = and_then (get key v) as_u64

abbrev pub get_bool : Str → Value → Option Bool
get_bool key v = and_then (get key v) as_bool

abbrev pub get_array : Str → Value → Option (List Value)
get_array key v = and_then (get key v) as_array

-- `Value::pointer` at a path of two keys; the keys that the enclave uses are no array indices.
abbrev pub pointer : Str → Str → Value → Option Value
pointer outer inner v = and_then (get outer v) (get inner)

abbrev pub pointer_str : Str → Str → Value → Option Str
pointer_str outer inner v = and_then (pointer outer inner v) as_str

-- `if let Value::Object(map) = &mut body { map.insert(key, v); }`
abbrev pub set_field : Str → Value → Value → Value
set_field key v (object fs) = object (insert_field key v fs)
set_field key v other = other

-- An object from its fields in any order.
abbrev pub object_of : List (Str × Value) → Fields
object_of [] = end
object_of ((k, v) ∷ fs) = insert_field k v (object_of fs)
