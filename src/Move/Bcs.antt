-- ===== src/Move/Bcs.antt =====
-- std::bcs::to_bytes at the types that the contracts serialize, as the format is specified: numbers
-- with the lowest byte first, vectors and strings behind the ULEB128 of their length.
use sekisho.Base.{
  ℕ, zero, suc, ◌+◌, ◌*◌, ◌/◌, ◌^◌, ◌<◌, [], ◌∷◌, ◌≡◌, refl, length, replicate, All, arith,
}
use native.Mathlib.Nat.{pow-suc}
use sekisho.Text.{Str, Bytes}
use sekisho.Text.Utf8.{as_bytes}
use sekisho.Receipt.{le_bytes, to_le_bytes}
use sekisho.Receipt.Encoding.{sequence}

abbrev pub u8 : ℕ → Bytes
u8 n = n ∷ []

abbrev pub u64 : ℕ → Bytes
u64 = to_le_bytes

abbrev pub u256 : ℕ → Bytes
u256 = le_bytes 32

abbrev pub vector_u8 : Bytes → Bytes
vector_u8 = sequence

abbrev pub string : Str → Bytes
string text = sequence (as_bytes text)

-- The number that little-endian bytes stand for.
unfoldable pub le_value : Bytes → ℕ
le_value [] = 0
le_value (b ∷ bytes) = b + 256 * le_value bytes

abbrev pub AreBytes : Bytes → Type 0
AreBytes = All (λ b. b < 256)

pub le_bytes-le_value :
    (bytes : Bytes) → AreBytes bytes → le_bytes (length bytes) (le_value bytes) ≡ bytes
unfolding le_bytes le_value
le_bytes-le_value [] h = refl
le_bytes-le_value (b ∷ bytes) (h, hs) = ground (arith, le_bytes-le_value bytes hs)

pub le_value-le_bytes : (k n : ℕ) → n < 256 ^ k → le_value (le_bytes k n) ≡ n
unfolding le_bytes le_value
le_value-le_bytes zero n h = omega arith
le_value-le_bytes (suc k) n h =
    omega (arith, le_value-le_bytes k (n / 256) (omega (arith, pow-suc 256 k)))

pub length-le_bytes : (k n : ℕ) → length (le_bytes k n) ≡ k
unfolding le_bytes
length-le_bytes zero n = refl
length-le_bytes (suc k) n = omega (arith, length-le_bytes k (n / 256))

pub replicate-AreBytes : (n b : ℕ) → b < 256 → AreBytes (replicate n b)
replicate-AreBytes zero b h = tt
replicate-AreBytes (suc n) b h = (h, replicate-AreBytes n b h)
