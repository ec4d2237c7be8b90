-- ===== src/Auth.antt =====
-- auth.rs: bearer keys.
pub mod Callers
pub mod Bearer
mod Runs
mod Tests
use sekisho.Base.{
  Bool, true, false, not, ◌||◌, List, [], ◌∷◌, Option, none, some, ◌==◌, if◌then◌else◌, length,
  find,
}
use sekisho.Text.{Str, Bytes, lit, split_once, eq_ignore_ascii_case, trim}
use sekisho.Text.Utf8.{as_bytes, byte_len}

-- `ct_eq` of the crate `subtle` on two slices of one length: whether they are equal. Its constant
-- time is not a matter of its value.
module _ (ct_eq : Bytes → Bytes → Bool) where
  unfoldable pub constant_time_eq : Bytes → Bytes → Bool
  constant_time_eq a b = if not (length a == length b) then false else ct_eq a b

  -- The loop of `authenticate`, over its `matched`.
  authenticate_loop : Str → Bool → List Str → Bool
  authenticate_loop presented matched [] = matched
  authenticate_loop presented matched (key ∷ keys) =
      authenticate_loop presented
        (if byte_len presented == byte_len key
          then matched || ct_eq (as_bytes presented) (as_bytes key)
          else matched)
        keys

  pub authenticate : Str → List Str → Bool
  unfolding authenticate_loop
  authenticate presented valid_keys = authenticate_loop presented false valid_keys

  unfoldable pub identify_caller : Str → List Str → Option Str
  unfolding constant_time_eq
  identify_caller presented valid_keys =
      find (λ key. constant_time_eq (as_bytes presented) (as_bytes key)) valid_keys

unfoldable pub extract_bearer : Str → Option Str
extract_bearer header_value = elim (split_once b' ' header_value) [
  | none ↦ none
  | some (scheme, token) ↦
      if not (eq_ignore_ascii_case scheme (lit "Bearer")) then none else some (trim token)
]
