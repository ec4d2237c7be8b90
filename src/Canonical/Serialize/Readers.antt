-- ===== src/Canonical/Serialize/Readers.antt =====
-- Readers of the canonical JSON of the parts of a request, which give every field back.
use Prim.Native.String.{String}
use sekisho.Base.{
  true, false, List, [], ◌∷◌, ◌≡◌, refl, arith, Option, none, some, if◌then◌else◌, map, same,
  and_then, unwrap_or, map_option, Option-cases, inl, inr,
}
use sekisho.Text.{Str, lit}
use sekisho.Json.{Value, Items, nil, cons, of_list, get, get_str, get_bool, array}
use sekisho.Canonical.{
  CanonicalRole, system, user, assistant, tool, CanonicalBlock, text, tool_use, tool_result, opaque,
  CanonicalMessage, CanonicalToolDef,
}
use sekisho.Canonical.Serialize.{role_name, block_value, message_value, tool_value}

read_items {ℓ} : {A : Type ℓ} → (Value → Option A) → Items → Option (List A)
read_items read nil = some []
read_items read (cons v vs) =
    let rest = read_items read vs in and_then (read v) (λ a. map_option (λ as'. a ∷ as') rest)

pub read_array {ℓ} : {A : Type ℓ} → (Value → Option A) → Value → Option (List A)
unfolding read_items
read_array read (array vs) = read_items read vs
read_array read _ = none

-- A reader of the items gives back what a writer wrote.
pub read_array-map :
    {A : Type 0} (read : Value → Option A) (write : A → Value)
    → ((a : A) → read (write a) ≡ some a)
    → (as' : List A) → read_array read (array (of_list (map write as'))) ≡ some as'
unfolding read_array
read_array-map read write inverse [] = refl
read_array-map read write inverse (a ∷ as') =
    ground (arith, inverse a, read_array-map read write inverse as')

abbrev pub str : String → Value → Option Str
str key = get_str (lit key)

read_kind : Str → Value → Option CanonicalBlock
read_kind kind v =
    if same kind (lit "text")
    then map_option text (str "text" v)
    else if same kind (lit "tool_use")
    then and_then (str "id" v) (λ id.
      and_then (str "name" v) (λ name. map_option (tool_use id name) (get (lit "input") v)))
    else if same kind (lit "tool_result")
    then and_then (str "tool_use_id" v) (λ id.
      map_option (λ content. tool_result id content (unwrap_or false (get_bool (lit "is_error") v)))
        (str "content" v))
    else and_then (str "kind" v) (λ k. map_option (opaque k) (str "descriptor" v))

pub read_block : Value → Option CanonicalBlock
unfolding read_kind
read_block v = and_then (str "type" v) (λ kind. read_kind kind v)

pub read_block-block_value : (b : CanonicalBlock) → read_block (block_value b) ≡ some b
unfolding read_block block_value
read_block-block_value (text t) = refl
read_block-block_value (tool_use id name input) = refl
read_block-block_value (tool_result id content true) = refl
read_block-block_value (tool_result id content false) = refl
read_block-block_value (opaque kind descriptor) = refl

read_role : Str → Option CanonicalRole
read_role name =
    if same name (lit "system")
    then some system
    else if same name (lit "user")
    then some user
    else if same name (lit "assistant")
    then some assistant
    else if same name (lit "tool")
    then some tool
    else none

read_role-role_name : (r : CanonicalRole) → read_role (role_name r) ≡ some r
unfolding read_role
read_role-role_name system = refl
read_role-role_name _ = refl

unfoldable pub read_message : Value → Option CanonicalMessage
unfolding read_role
read_message v = and_then (and_then (str "role" v) read_role) (λ role.
    map_option (λ content. record { role = role; content = content })
      (and_then (get (lit "content") v) (read_array read_block)))

pub read_message-message_value : (m : CanonicalMessage) → read_message (message_value m) ≡ some m
unfolding read_message message_value
read_message-message_value m = ground (
  arith,
  read_role-role_name m.role,
  read_array-map read_block block_value read_block-block_value m.content,
)

unfoldable pub read_tool : Value → Option CanonicalToolDef
read_tool v = and_then (str "name" v) (λ name.
    map_option
      (λ schema. record { name = name; description = str "description" v; input_schema = schema })
      (get (lit "input_schema") v))

pub read_tool-tool_value : (t : CanonicalToolDef) → read_tool (tool_value t) ≡ some t
unfolding read_tool tool_value
read_tool-tool_value t = elim (Option-cases t.description) [
  | inl e ↦ ground (arith, e)
  | inr (d, e) ↦ ground (arith, e)
]
