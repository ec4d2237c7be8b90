-- ===== src/Receipt/Reader/Reads.antt =====
-- What each of the readers takes off the front of the bytes that are written for it.
use sekisho.Base.{
  ℕ, zero, suc, ◌/◌, ◌^◌, ◌<◌, some, [], ◌∷◌, ◌++◌, ◌≡◌, refl, sym, ap, ◌∙◌, arith, length, All,
}
use mathlib.Core.Path.{subst}
use mathlib.Core.List.{append_assoc, append-nil}
use native.Mathlib.Nat.{pow-suc}
use sekisho.Text.{Str, Bytes}
use sekisho.Text.Utf8.{as_bytes, byte_len, from_utf8_lossy, IsScalar, from_utf8_lossy-as_bytes}
use sekisho.Receipt.{receipt_intent, le_bytes, to_le_bytes}
use sekisho.Receipt.Encoding.{groups, sequence}
use sekisho.Receipt.Reader.{
  Read, continue, ◌>>=◌, pure, byte, exactly, little_endian, uleb, vector, text, u64, u256, intent,
}

-- `p` reads `a` off the front of any bytes that begin with `front`.
pub record Reads {ℓ} {A : Type ℓ} (p : Read A) (front : Bytes) (a : A) : Type ℓ where
  pub before : (rest : Bytes) → p (front ++ rest) ≡ some (a, rest)

pub Reads-bind {ℓ} :
    {A B : Type ℓ} {p : Read A} (f : A → Read B) {front back : Bytes} {a : A} {b : B}
    → Reads p front a
    → Reads (f a) back b
    → Reads (p >>= f) (front ++ back) b
unfolding ◌>>=◌
Reads-bind {p = p} f {front = front} {back = back} {a = a} hp hf = record {
  before = λ rest.
      ap (λ bytes. continue (p bytes) f) (append_assoc front back rest)
      ∙ ap (λ r. continue r f) (hp.before (back ++ rest))
      ∙ hf.before rest;
}

pub Reads-pure {ℓ} : {A : Type ℓ} (a : A) → Reads (pure a) [] a
unfolding pure
Reads-pure a = record { before = λ rest. refl }

-- The last step of a block returns with nothing more to read.
pub Reads-last {ℓ} :
    {A B : Type ℓ} {p : Read A} (f : A → Read B) {front : Bytes} {a : A} {b : B}
    → Reads p front a
    → Reads (f a) [] b
    → Reads (p >>= f) front b
Reads-last {p = p} f {front = front} {b = b} hp hf =
    subst (λ bytes. Reads (p >>= f) bytes b) (append-nil front) (Reads-bind f hp hf)

pub Reads-byte : (b : ℕ) → Reads byte (b ∷ []) b
unfolding byte
Reads-byte b = record { before = λ rest. refl }

exactly-append : (bytes rest : Bytes) → exactly (length bytes) (bytes ++ rest) ≡ some (bytes, rest)
unfolding exactly
exactly-append [] rest = refl
exactly-append (b ∷ bytes) rest = ground (arith, exactly-append bytes rest)

Reads-exactly : (n : ℕ) (bytes : Bytes) → length bytes ≡ n → Reads (exactly n) bytes bytes
Reads-exactly n bytes h = record {
  before = λ rest. ap (λ k. exactly k (bytes ++ rest)) (sym h) ∙ exactly-append bytes rest;
}

little_endian-append :
    (k n : ℕ) (rest : Bytes) → n < 256 ^ k → little_endian k (le_bytes k n ++ rest) ≡ some (n, rest)
unfolding little_endian le_bytes
little_endian-append zero n rest h = ground arith
little_endian-append (suc k) n rest h =
    ground (arith, little_endian-append k (n / 256) rest (omega (arith, pow-suc 256 k)))

uleb-append :
    (k n : ℕ) (rest : Bytes)
    → n < 128 ^ suc k
    → uleb (suc k) (groups (suc k) n ++ rest) ≡ some (n, rest)
unfolding uleb groups
uleb-append zero n rest h = ground arith
uleb-append (suc k) n rest h =
    ground (arith, uleb-append k (n / 128) rest (omega (arith, pow-suc 128 (suc k))))

pub Reads-u64 : (n : ℕ) → n < 2 ^ 64 → Reads u64 (to_le_bytes n) n
unfolding u64 to_le_bytes
Reads-u64 n h = record { before = λ rest. little_endian-append 8 n rest (omega arith) }

pub Reads-vector : (bytes : Bytes) → length bytes < 2 ^ 64 → Reads vector (sequence bytes) bytes
unfolding vector
Reads-vector bytes h =
    Reads-bind _ (record { before = λ rest. uleb-append 9 (length bytes) rest (omega arith) })
      (Reads-exactly (length bytes) bytes refl)

decoded : (s : Str) → All IsScalar s → from_utf8_lossy (as_bytes s) ≡ s
unfolding from_utf8_lossy
decoded s h =
    ap from_utf8_lossy (sym (append-nil (as_bytes s)))
    ∙ from_utf8_lossy-as_bytes s [] h
    ∙ append-nil s

pub Reads-text :
    (s : Str) → All IsScalar s → byte_len s < 2 ^ 64 → Reads text (sequence (as_bytes s)) s
unfolding text
Reads-text s h fits = Reads-last _ (Reads-vector (as_bytes s) fits) (
    subst (λ t. Reads (pure (from_utf8_lossy (as_bytes s))) [] t) (decoded s h)
      (Reads-pure (from_utf8_lossy (as_bytes s))))

pub Reads-u256 : (bytes : Bytes) → length bytes ≡ 32 → Reads u256 bytes bytes
unfolding u256
Reads-u256 = Reads-exactly 32

pub Reads-intent : Reads intent (receipt_intent ∷ []) receipt_intent
unfolding intent
Reads-intent = record { before = λ rest. refl }
