-- ===== src/Json/Objects.antt =====
-- Objects as maps: what `Map::get` finds after an insert, whatever the order of the fields.
use sekisho.Base.{
  true, List, [], ◌∷◌, ◌≡◌, refl, ap, ◌∙◌, Option, none, some, if◌then◌else◌, same, same_sound,
  same_refl, arith,
}
use sekisho.Text.{Str}
use sekisho.Json.{Value, Fields, end, field, lookup, insert_field, object_of}

same_trans : (a b c : Str) → same a b ≡ true → same a c ≡ same b c
same_trans a b c h = ap (λ t. same t c) (same_sound a b h)

-- An insert changes what is found at its key and nowhere else.
pub lookup-insert_field :
    (key k : Str) (v : Value) (fs : Fields)
    → lookup key (insert_field k v fs) ≡ (if same key k then some v else lookup key fs)
lookup-insert_field key k v end = refl
lookup-insert_field key k v (field j w fs) = ground (
  arith,
  lookup-insert_field key k v fs,
  same_sound key k,
  same_sound k j,
  same_sound key j,
  same_refl key,
)

-- The value at a key of a list of fields.
abbrev pub field_of : Str → List (Str × Value) → Option Value
field_of key [] = none
field_of key ((k, v) ∷ fs) = let rest = field_of key fs in if same key k then some v else rest

pub lookup-object_of :
    (key : Str) (fs : List (Str × Value)) → lookup key (object_of fs) ≡ field_of key fs
lookup-object_of key [] = refl
lookup-object_of key ((k, v) ∷ fs) =
    lookup-insert_field key k v (object_of fs)
    ∙ ap (λ r. if same key k then some v else r) (lookup-object_of key fs)
