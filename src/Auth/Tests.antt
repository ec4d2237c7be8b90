-- ===== src/Auth/Tests.antt =====
-- auth.rs: the tests beside the code, on the model.
use sekisho.Base.{Bool, true, false, not, ◌&&◌, List, [], ◌∷◌, Option, none, some, same, ◌≡◌, refl}
use sekisho.Text.{
  Str, lit, split_once, to_lower, trim, trim_start, trim_end, keep_before, is_whitespace,
}
use sekisho.Text.Utf8.{as_bytes, encode_char}
use sekisho.Auth.{
  authenticate, authenticate_loop, constant_time_eq, identify_caller, extract_bearer,
}

-- `assert_eq!` at an optional text.
abbrev is_text : Option Str → Option Str → Bool
is_text none none = true
is_text (some s) (some t) = same s t
is_text _ _ = false

abbrev accepts : Str → List Str → Bool
unfolding authenticate authenticate_loop
accepts presented keys = authenticate same presented keys

abbrev authenticate_accepts_configured_key : Bool
authenticate_accepts_configured_key =
    let keys = lit "sk-caller-a" ∷ lit "sk-caller-b" ∷ [] in
    accepts (lit "sk-caller-a") keys && accepts (lit "sk-caller-b") keys

abbrev authenticate_rejects_unknown_key : Bool
authenticate_rejects_unknown_key =
    let keys = lit "sk-caller-a" ∷ [] in
    not (accepts (lit "sk-caller-x") keys) && not (accepts [] keys)

abbrev authenticate_rejects_prefix_of_valid_key : Bool
authenticate_rejects_prefix_of_valid_key =
    not (accepts (lit "sk-caller-a") (lit "sk-caller-a-longer" ∷ []))

abbrev extract_bearer_strips_scheme : Bool
unfolding extract_bearer
extract_bearer_strips_scheme =
    is_text (extract_bearer (lit "Bearer abc123")) (some (lit "abc123"))
    && is_text (extract_bearer (lit "Basic abc123")) none
    && is_text (extract_bearer (lit "abc123")) none

abbrev extract_bearer_scheme_is_case_insensitive_but_token_is_not : Bool
unfolding extract_bearer
extract_bearer_scheme_is_case_insensitive_but_token_is_not =
    is_text (extract_bearer (lit "bearer abc123")) (some (lit "abc123"))
    && is_text (extract_bearer (lit "BEARER abc123")) (some (lit "abc123"))
    && is_text (extract_bearer (lit "BeArEr abc123")) (some (lit "abc123"))
    && is_text (extract_bearer (lit "Bearer AbC123")) (some (lit "AbC123"))
    && is_text (extract_bearer (lit "Bearerish abc123")) none

abbrev identify_caller_returns_matching_key : Bool
unfolding identify_caller
identify_caller_returns_matching_key =
    let keys = lit "sk-a" ∷ lit "sk-b" ∷ [] in
    is_text (identify_caller same (lit "sk-b") keys) (some (lit "sk-b"))
    && is_text (identify_caller same (lit "sk-c") keys) none

authenticate_tests :
    (authenticate_accepts_configured_key && authenticate_rejects_unknown_key
      && authenticate_rejects_prefix_of_valid_key)
    ≡ true
unfolding authenticate authenticate_loop as_bytes encode_char
authenticate_tests = refl

extract_bearer_tests :
    (extract_bearer_strips_scheme && extract_bearer_scheme_is_case_insensitive_but_token_is_not)
    ≡ true
unfolding extract_bearer split_once to_lower trim trim_start trim_end keep_before is_whitespace
extract_bearer_tests = refl

identify_caller_tests : identify_caller_returns_matching_key ≡ true
unfolding identify_caller constant_time_eq as_bytes encode_char
identify_caller_tests = refl
