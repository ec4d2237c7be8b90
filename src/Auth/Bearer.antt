-- ===== src/Auth/Bearer.antt =====
-- auth.rs: the header that carries a key.
use sekisho.Base.{ℕ, false, [], ◌∷◌, ◌++◌, none, some, ◌≡◌, if◌then◌else◌, any, ◌==◌, arith}
use sekisho.Text.{Str, lit, split_once, eq_ignore_ascii_case, trim}
use sekisho.Auth.{extract_bearer}

split_once-append :
    (c : ℕ) (front back : Str)
    → any (λ d. d == c) front ≡ false
    → split_once c (front ++ c ∷ back) ≡ some (front, back)
unfolding split_once
split_once-append c [] back h = ground arith
split_once-append c (d ∷ front) back h = ground (arith, split_once-append c front back)

-- A header is a scheme without a space, a space, and a token. The token is taken, without white
-- space around it, exactly if the scheme is "Bearer" in any case.
pub extract_bearer-append :
    (scheme token : Str)
    → any (λ c. c == b' ') scheme ≡ false
    → extract_bearer (scheme ++ b' ' ∷ token)
      ≡ (if eq_ignore_ascii_case scheme (lit "Bearer") then some (trim token) else none)
unfolding extract_bearer
extract_bearer-append scheme token h =
    rw (extract_bearer, split_once-append b' ' scheme token h) (ground arith)
