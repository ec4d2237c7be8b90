-- ===== src/Auth/Callers.antt =====
-- Who is let in: exactly the holders of a configured key.
use sekisho.Base.{
  Bool, true, false, ◌&&◌, ◌||◌, List, [], ◌∷◌, ◌≡◌, refl, sym, ap, ◌∙◌, none, some, ◌==◌,
  if◌then◌else◌, same, same_iff, same_sound, length, any, All, arith,
}
use sekisho.Text.{Str, Bytes}
use sekisho.Text.Utf8.{as_bytes, IsScalar, as_bytes-injective}
use sekisho.Auth.{constant_time_eq, authenticate_loop, authenticate, identify_caller}

-- Two Booleans that stand for the same statement are equal.
Bool-eq : (b c : Bool) → (b ≡ true → c ≡ true) → (c ≡ true → b ≡ true) → b ≡ c
Bool-eq true c f g = sym (f refl)
Bool-eq false true f g = g refl
Bool-eq false false f g = refl

same-length : (a b : Bytes) → same a b ≡ true → length a ≡ length b
same-length a b h = ap length (same_sound a b h)

-- Two texts are one exactly if their bytes are.
same-as_bytes :
    (s t : Str) → All IsScalar s → All IsScalar t → same (as_bytes s) (as_bytes t) ≡ same s t
same-as_bytes s t hs ht =
    Bool-eq (same (as_bytes s) (as_bytes t)) (same s t)
      (λ e. (same_iff s t).1 (as_bytes-injective s t hs ht (same_sound _ _ e)))
      (λ e. (same_iff (as_bytes s) (as_bytes t)).1 (ap as_bytes (same_sound s t e)))

module _ (ct_eq : Bytes → Bytes → Bool)
    (ct_eq_lem : (a b : Bytes) → length a ≡ length b → ct_eq a b ≡ same a b) where
  compared : (a b : Bytes) → ((length a == length b) && ct_eq a b) ≡ same a b
  compared a b = ground (arith, ct_eq_lem a b, same-length a b)

  constant_time_eq-same : (a b : Bytes) → constant_time_eq ct_eq a b ≡ same a b
  unfolding constant_time_eq
  constant_time_eq-same a b = ground (arith, compared a b)

  authenticate_loop-any :
      (presented : Str) (keys : List Str) (matched : Bool)
      → All IsScalar presented
      → All (All IsScalar) keys
      → authenticate_loop ct_eq presented matched keys ≡ (matched || any (same presented) keys)
  unfolding authenticate_loop
  authenticate_loop-any presented [] matched h hs = ground arith
  authenticate_loop-any presented (key ∷ keys) matched h (hk, hs) =
      authenticate_loop-any presented keys _ h hs
      ∙ ground
          (arith, compared (as_bytes presented) (as_bytes key), same-as_bytes presented key h hk)

  authenticate-any :
      (presented : Str) (valid_keys : List Str)
      → All IsScalar presented
      → All (All IsScalar) valid_keys
      → authenticate ct_eq presented valid_keys ≡ any (same presented) valid_keys
  unfolding authenticate
  authenticate-any presented valid_keys = authenticate_loop-any presented valid_keys false

  identify_caller-any :
      (presented : Str) (keys : List Str)
      → All IsScalar presented
      → All (All IsScalar) keys
      → identify_caller ct_eq presented keys
        ≡ (if any (same presented) keys then some presented else none)
  unfolding identify_caller
  identify_caller-any presented [] h hs = refl
  identify_caller-any presented (key ∷ keys) h (hk, hs) = ground (
    arith,
    constant_time_eq-same (as_bytes presented) (as_bytes key),
    same-as_bytes presented key h hk,
    same_sound presented key,
    identify_caller-any presented keys h hs,
  )

  -- `authenticate` accepts exactly the configured keys, no prefix and no other text, and
  -- `identify_caller` names a caller for exactly the texts that `authenticate` accepts: the text
  -- presented.
  pub identify_caller-authenticate :
      (presented : Str) (valid_keys : List Str)
      → All IsScalar presented
      → All (All IsScalar) valid_keys
      → (authenticate ct_eq presented valid_keys ≡ any (same presented) valid_keys)
        × (identify_caller ct_eq presented valid_keys
            ≡ (if authenticate ct_eq presented valid_keys then some presented else none))
  identify_caller-authenticate presented valid_keys h hs =
      let e = authenticate-any presented valid_keys h hs in
      (
        e,
        identify_caller-any presented valid_keys h hs
            ∙ ap (λ b. if b then some presented else none) (sym e),
      )
