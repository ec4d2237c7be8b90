-- ===== src/Sdk/BlobId.antt =====
-- receipt.ts: `parseBlobId` on the blob ids that the gateway serves.
use sekisho.Base.{
  ℕ, zero, suc, ◌+◌, ◌*◌, ◌/◌, ◌%◌, ◌<◌, true, false, [], ◌∷◌, some, ◌==◌, ◌≡◌, refl, ap, ◌∙◌,
  length, take, drop, ==_iff, arith,
}
use sekisho.Text.{Str, Bytes, lit, starts_with}
use sekisho.Text.Hex.{digit, hex}
use sekisho.Move.Bcs.{le_value, AreBytes}
use sekisho.Sdk.{is_hex, all, hex_digit, parse_hex, blob_loop, parse_blob_id}

pub hex_digit-digit : (n : ℕ) → hex_digit (digit n) ≡ n % 16
hex_digit-digit n = ground arith

is_hex-digit : (n : ℕ) → is_hex (digit n) ≡ true
is_hex-digit n = ground arith

parse_hex-hex :
    (b : ℕ) (s : Str) → b < 256 → parse_hex 0 (take 2 (digit (b / 16) ∷ digit b ∷ s)) ≡ b
parse_hex-hex b s h = omega (arith, hex_digit-digit (b / 16), hex_digit-digit b)

drop_pair : (k c d : ℕ) (s : Str) → drop (0 + 2 * suc k) (c ∷ d ∷ s) ≡ drop (0 + 2 * k) s
drop_pair k c d s =
    let e : 0 + 2 * suc k ≡ suc (suc (0 + 2 * k)) = omega arith in ap (λ n. drop n (c ∷ d ∷ s)) e

blob_loop_step :
    (k : ℕ) (s : Str) (out : ℕ)
    → blob_loop (suc k) 0 s out
      ≡ blob_loop k 0 s (out * 256 + parse_hex 0 (take 2 (drop (0 + 2 * k) s)))
unfolding blob_loop
blob_loop_step k s out = refl

-- The loop ends with the first pair.
blob_loop-cons :
    (k : ℕ) (c d : ℕ) (s : Str) (out : ℕ)
    → blob_loop (suc k) 0 (c ∷ d ∷ s) out
      ≡ blob_loop k 0 s out * 256 + parse_hex 0 (take 2 (c ∷ d ∷ s))
unfolding blob_loop
blob_loop-cons zero c d s out = refl
blob_loop-cons (suc k) c d s out =
    blob_loop_step (suc k) (c ∷ d ∷ s) out
    ∙ blob_loop-cons k c d s _
    ∙ ap
        (λ rest.
          blob_loop k 0 s (out * 256 + parse_hex 0 (take 2 rest)) * 256
          + parse_hex 0 (take 2 (c ∷ d ∷ s)))
        (drop_pair k c d s)

blob_loop-hex :
    (bytes : Bytes) → AreBytes bytes → blob_loop (length bytes) 0 (hex bytes) 0 ≡ le_value bytes
unfolding le_value blob_loop
blob_loop-hex [] h = refl
blob_loop-hex (b ∷ bytes) (h, hs) = omega (
  arith,
  blob_loop-cons (length bytes) (digit (b / 16)) (digit b) (hex bytes) 0,
  parse_hex-hex b (hex bytes) h,
  blob_loop-hex bytes hs,
)

all-hex : (bytes : Bytes) → all is_hex (hex bytes) ≡ true
all-hex [] = refl
all-hex (b ∷ bytes) = ground (arith, is_hex-digit (b / 16), is_hex-digit b, all-hex bytes)

length-hex : (bytes : Bytes) → length (hex bytes) ≡ 2 * length bytes
length-hex [] = omega arith
length-hex (b ∷ bytes) = omega (arith, length-hex bytes)

-- A blob id of 32 bytes is not taken for a prefixed one.
not_prefixed : (bytes : Bytes) → starts_with (hex bytes) (lit "0x") ≡ false
unfolding starts_with
not_prefixed [] = refl
not_prefixed (b ∷ bytes) = ground arith

-- `parseBlobId` reads the hex of 32 bytes as the number that they stand for, the lowest first, also
-- where every digit of it is decimal.
pub parse_blob_id-hex :
    (bytes : Bytes)
    → length bytes ≡ 32
    → AreBytes bytes
    → parse_blob_id (hex bytes) ≡ some (le_value bytes)
unfolding parse_blob_id
parse_blob_id-hex (b ∷ bytes) n h =
    let size : length (hex (b ∷ bytes)) ≡ 64 = omega (arith, length-hex (b ∷ bytes), n) in
    let wide : (length (hex (b ∷ bytes)) == 64) ≡ true = (==_iff _ 64).1 size in
    let rounds : length (hex (b ∷ bytes)) / 2 ≡ length (b ∷ bytes) = omega (arith, size, n) in
    let even : length (hex (b ∷ bytes)) % 2 ≡ 0 = omega (arith, size) in
    rw
      (
        parse_blob_id,
        not_prefixed (b ∷ bytes),
        all-hex (b ∷ bytes),
        wide,
        rounds,
        even,
        blob_loop-hex (b ∷ bytes) h,
      )
      refl
parse_blob_id-hex [] n h = absurd (omega (arith, n))
