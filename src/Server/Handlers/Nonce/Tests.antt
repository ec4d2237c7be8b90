-- ===== src/Server/Handlers/Nonce/Tests.antt =====
-- server.rs: the tests of nonces, on the model.
use sekisho.Base.{
  ℕ, ◌+◌, ◌-◌, ◌*◌, Bool, true, false, ◌&&◌, leb, [], ◌∷◌, Option, none, some, Result, ok, err,
  same, if◌then◌else◌, replicate, ◌≡◌, refl,
}
use sekisho.Text.{Str, Bytes, lit, trim, trim_start, trim_end, keep_before, is_whitespace}
use sekisho.Fixtures.{external}
use sekisho.Server.Handlers.{resolve_receipt_id}

-- The crate `hex` on small letters and digits.
abbrev hex_digit : ℕ → Option ℕ
hex_digit c =
    if leb b'0' c && leb c b'9'
    then some (c - b'0')
    else if leb b'a' c && leb c b'f'
    then some (c - b'a' + 10)
    else none

abbrev pair_up : Option ℕ → Option ℕ → Result Bytes Str → Result Bytes Str
pair_up (some high) (some low) (ok bytes) = ok ((high * 16 + low) ∷ bytes)
pair_up _ _ _ = err (lit "Invalid character or length")

abbrev unhex : Str → Result Bytes Str
unhex [] = ok []
unhex (c ∷ []) = err (lit "Odd number of digits")
unhex (c ∷ d ∷ s) = pair_up (hex_digit c) (hex_digit d) (unhex s)

abbrev nonce_of : Str → Result Bytes Str
unfolding resolve_receipt_id
nonce_of value =
    resolve_receipt_id (record external { decode_hex = unhex }) (replicate 16 5) (some (some value))

abbrev is_nonce : Bytes → Result Bytes Str → Bool
is_nonce bytes (ok id) = same bytes id
is_nonce bytes (err _) = false

abbrev is_refused : Result Bytes Str → Bool
is_refused (ok _) = false
is_refused (err _) = true

abbrev client_supplied_nonce_is_used_verbatim : Bool
unfolding nonce_of
client_supplied_nonce_is_used_verbatim =
    is_nonce (0 ∷ 1 ∷ 2 ∷ 3 ∷ 4 ∷ 5 ∷ 6 ∷ 7 ∷ 8 ∷ 9 ∷ 10 ∷ 11 ∷ 12 ∷ 13 ∷ 14 ∷ 15 ∷ [])
      (nonce_of (lit "000102030405060708090a0b0c0d0e0f"))

abbrev wrong_length_is_rejected_rather_than_padded : Bool
unfolding nonce_of
wrong_length_is_rejected_rather_than_padded =
    is_refused (nonce_of (lit "00010203"))
    && is_refused
        (nonce_of (lit "abababababababababababababababababababababababababababababababab"))

abbrev non_hex_is_rejected : Bool
unfolding nonce_of
non_hex_is_rejected = is_refused (nonce_of (lit "zz0102030405060708090a0b0c0d0e0f"))

nonce_tests :
    (client_supplied_nonce_is_used_verbatim && wrong_length_is_rejected_rather_than_padded
      && non_hex_is_rejected)
    ≡ true
unfolding nonce_of resolve_receipt_id trim trim_start trim_end keep_before is_whitespace
nonce_tests = refl
