-- ===== src/Canonical/Serialize/Commits.antt =====
-- The canonical JSON of a request determines the request: a reader of it gives every field back.
use sekisho.Base.{
  ℕ, ◌/◌, ◌%◌, ◌^◌, false, List, [], ◌∷◌, ◌++◌, ◌≡◌, refl, ap, ◌∙◌, arith, Option, none, some, ◌==◌,
  map, and_then, map_option,
}
use sekisho.Text.{Str, lit}
use sekisho.Json.{
  Value, object, number, float, of_list, object_of, get, as_str, as_u64, array, string,
}
use sekisho.Json.Objects.{field_of, lookup-object_of}
use sekisho.Canonical.{CanonicalToolDef, CanonicalRequest}
use sekisho.Canonical.Serialize.Readers.{
  read_array, read_array-map, read_message, read_message-message_value, read_tool,
  read_tool-tool_value,
}
use sekisho.Canonical.Serialize.{
  optional, text_value, u64_value, temperature_value, message_value, tool_value, tools_value,
  request_value,
}

-- A temperature that came out of JSON: the bits of a finite `f64`.
abbrev pub IsFinite : Option ℕ → Type 0
IsFinite none = Unit
IsFinite (some bits) = (bits / 2 ^ 52 % 2048 == 2047) ≡ false

as_bits : Value → Option ℕ
as_bits (number (float bits)) = some bits
as_bits _ = none

-- The fields of a request, before they are sorted.
abbrev request_fields : CanonicalRequest → List (Str × Value)
unfolding request_value
request_fields r =
    (lit "model", string r.model) ∷ optional (lit "system") (text_value r.system)
    ++ ((lit "messages", array (of_list (map message_value r.messages)))
          ∷ optional (lit "tools") (tools_value r.tools)
        ++ (optional (lit "tool_choice") r.tool_choice
            ++ (optional (lit "max_tokens") (u64_value r.max_tokens)
                ++ optional (lit "temperature") (temperature_value r.temperature))))

-- What is found at each key of the sorted object.
module _ (m n : Value) (a b c d e : Option Value) where
  abbrev parts : List (Str × Value)
  parts =
      (lit "model", m) ∷ optional (lit "system") a
      ++ ((lit "messages", n) ∷ optional (lit "tools") b
          ++ (optional (lit "tool_choice") c
              ++ (optional (lit "max_tokens") d ++ optional (lit "temperature") e)))

  at_system : field_of (lit "system") parts ≡ a
  at_system = ground arith

  at_messages : field_of (lit "messages") parts ≡ some n
  at_messages = ground arith

  at_tools : field_of (lit "tools") parts ≡ b
  at_tools = ground arith

  at_tool_choice : field_of (lit "tool_choice") parts ≡ c
  at_tool_choice = ground arith

  at_max_tokens : field_of (lit "max_tokens") parts ≡ d
  at_max_tokens = ground arith

  at_temperature : field_of (lit "temperature") parts ≡ e
  at_temperature = ground arith

  -- The same of the sorted object.
  found :
      (key : Str) {o : Option Value}
      → field_of key parts ≡ o
      → get key (object (object_of parts)) ≡ o
  found key e = lookup-object_of key parts ∙ e

read_tools : Option Value → Option (List CanonicalToolDef)
unfolding read_tool
read_tools none = some []
read_tools (some v) = read_array read_tool v

read_tools-tools_value : (ts : List CanonicalToolDef) → read_tools (tools_value ts) ≡ some ts
unfolding read_tools tool_value
read_tools-tools_value [] = refl
read_tools-tools_value (t ∷ ts) = read_array-map read_tool tool_value read_tool-tool_value (t ∷ ts)

-- A request from what stands at its keys.
read_parts : (m n a b c d e : Option Value) → Option CanonicalRequest
unfolding read_message read_tools
read_parts m n a b c d e = and_then (and_then m as_str) (λ model.
    and_then (and_then n (read_array read_message)) (λ messages.
      map_option
        (λ tools. record {
          model = model;
          system = and_then a as_str;
          messages = messages;
          tools = tools;
          tool_choice = c;
          max_tokens = and_then d as_u64;
          temperature = and_then e as_bits;
        })
        (read_tools b)))

read_request : Value → Option CanonicalRequest
unfolding read_parts
read_request v =
    read_parts (get (lit "model") v) (get (lit "messages") v) (get (lit "system") v)
      (get (lit "tools") v) (get (lit "tool_choice") v) (get (lit "max_tokens") v)
      (get (lit "temperature") v)

as_str-text_value : (o : Option Str) → and_then (text_value o) as_str ≡ o
as_str-text_value none = refl
as_str-text_value (some s) = refl

as_u64-u64_value : (o : Option ℕ) → and_then (u64_value o) as_u64 ≡ o
as_u64-u64_value none = refl
as_u64-u64_value (some n) = refl

as_bits-temperature_value : (o : Option ℕ) → IsFinite o → and_then (temperature_value o) as_bits ≡ o
unfolding as_bits
as_bits-temperature_value none h = refl
as_bits-temperature_value (some bits) h = ground arith

read_parts_lem :
    (r : CanonicalRequest)
    → IsFinite r.temperature
    → read_parts
        (some (string r.model))
        (some (array (of_list (map message_value r.messages))))
        (text_value r.system)
        (tools_value r.tools)
        r.tool_choice
        (u64_value r.max_tokens)
        (temperature_value r.temperature)
      ≡ some r
unfolding read_parts
read_parts_lem r h = ground (
  arith,
  read_array-map read_message message_value read_message-message_value r.messages,
  read_tools-tools_value r.tools,
  as_str-text_value r.system,
  as_u64-u64_value r.max_tokens,
  as_bits-temperature_value r.temperature h,
)

-- The canonical JSON of a request gives every field of the request back.
read_request-request_value :
    (r : CanonicalRequest) → IsFinite r.temperature → read_request (request_value r) ≡ some r
unfolding read_request request_value
read_request-request_value r h =
    let m = string r.model in
    let n = array (of_list (map message_value r.messages)) in
    let a = text_value r.system in
    let b = tools_value r.tools in
    let c = r.tool_choice in
    let d = u64_value r.max_tokens in
    let e = temperature_value r.temperature in
    rw
      (
        found m n a b c d e (lit "model") {o = some m} refl,
        found m n a b c d e (lit "messages") (at_messages m n a b c d e),
        found m n a b c d e (lit "system") (at_system m n a b c d e),
        found m n a b c d e (lit "tools") (at_tools m n a b c d e),
        found m n a b c d e (lit "tool_choice") (at_tool_choice m n a b c d e),
        found m n a b c d e (lit "max_tokens") (at_max_tokens m n a b c d e),
        found m n a b c d e (lit "temperature") (at_temperature m n a b c d e),
      )
      (read_parts_lem r h)

-- Two requests with the same canonical JSON are the same request: no field, message, block or tool
-- is left out of it, and none of two different block kinds read alike. Temperatures are finite, as
-- JSON has no others.
pub request_value-injective :
    (r s : CanonicalRequest)
    → IsFinite r.temperature
    → IsFinite s.temperature
    → request_value r ≡ request_value s
    → r ≡ s
request_value-injective r s hr hs e =
    cc (read_request-request_value r hr, ap read_request e, read_request-request_value s hs)
