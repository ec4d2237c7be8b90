-- ===== src/Text/Utf8.antt =====
-- UTF-8: `str::as_bytes`, `str::len` and `String::from_utf8_lossy`.
use sekisho.Base.{
  ℕ, zero, suc, ◌+◌, ◌-◌, ◌*◌, ◌/◌, ◌%◌, ◌<◌, ◌≡◌, ◌⊎◌, Bool, ◌&&◌, List, [], ◌∷◌, ◌++◌, leb, ltb,
  ◌==◌, if◌then◌else◌, All, length, arith, refl, ap, ◌∙◌, sym,
}
use mathlib.Core.List.{append_assoc, append-nil}

-- A Unicode scalar value, as Rust's `char` holds it.
abbrev pub IsScalar : ℕ → Type 0
IsScalar c = (c < 0xd800) ⊎ ((0xdfff < c) × (c < 0x110000))

-- The bytes of one character.
unfoldable pub encode_char : ℕ → List ℕ
encode_char c =
    if ltb c 0x80
    then c ∷ []
    else if ltb c 0x800
    then (0xc0 + c / 64) ∷ (0x80 + c % 64) ∷ []
    else if ltb c 0x10000
    then (0xe0 + c / 4096) ∷ (0x80 + c / 64 % 64) ∷ (0x80 + c % 64) ∷ []
    else (0xf0 + c / 262144) ∷ (0x80 + c / 4096 % 64) ∷ (0x80 + c / 64 % 64) ∷ (0x80 + c % 64) ∷ []

unfoldable pub as_bytes : List ℕ → List ℕ
as_bytes [] = []
as_bytes (c ∷ s) = encode_char c ++ as_bytes s

-- `str::len` counts bytes.
abbrev pub byte_len : List ℕ → ℕ
byte_len s = length (as_bytes s)

-- What the decoder has read of a character: nothing, or a first part of it, with the range of the
-- next byte, the number of bytes behind that one and the bits read so far.
pub data Pending : Type 0 where
  start : Pending
  need : (more lo hi bits : ℕ) → Pending

abbrev within : ℕ → ℕ → ℕ → Bool
within lo hi c = leb lo c && leb c hi

abbrev replacement : ℕ
replacement = 0xfffd

unfoldable pub first_byte : ℕ → List ℕ × Pending
first_byte b =
    if ltb b 0x80
    then (b ∷ [], start)
    else if within 0xc2 0xdf b
    then ([], need 0 0x80 0xbf (b - 0xc0))
    else if b == 0xe0
    then ([], need 1 0xa0 0xbf 0)
    else if b == 0xed
    then ([], need 1 0x80 0x9f 13)
    else if within 0xe1 0xef b
    then ([], need 1 0x80 0xbf (b - 0xe0))
    else if b == 0xf0
    then ([], need 2 0x90 0xbf 0)
    else if b == 0xf4
    then ([], need 2 0x80 0x8f 4)
    else if within 0xf1 0xf3 b
    then ([], need 2 0x80 0xbf (b - 0xf0))
    else (replacement ∷ [], start)

unfoldable pub next_byte : ℕ → ℕ → List ℕ × Pending
next_byte zero bits = (bits ∷ [], start)
next_byte (suc k) bits = ([], need k 0x80 0xbf bits)

-- A byte that cannot go on ends the part read so far, which reads as U+FFFD, and is read afresh.
unfoldable pub decode_byte : Pending → ℕ → List ℕ × Pending
decode_byte start b = first_byte b
decode_byte (need more lo hi bits) b =
    if within lo hi b
    then next_byte more (bits * 64 + (b - 0x80))
    else (replacement ∷ (first_byte b).0, (first_byte b).1)

unfoldable pub decode_end : Pending → List ℕ
decode_end start = []
decode_end (need _ _ _ _) = replacement ∷ []

unfoldable pub decode : Pending → List ℕ → List ℕ
decode p [] = decode_end p
decode p (b ∷ bs) = (decode_byte p b).0 ++ decode (decode_byte p b).1 bs

unfoldable pub from_utf8_lossy : List ℕ → List ℕ
unfolding decode decode_byte decode_end first_byte next_byte
from_utf8_lossy = decode start

decode-encode_char :
    (c : ℕ) (rest : List ℕ)
    → IsScalar c
    → decode start (encode_char c ++ rest) ≡ c ∷ decode start rest
unfolding decode decode_byte first_byte next_byte encode_char
decode-encode_char c rest h = ground arith

decode-as_bytes :
    (s rest : List ℕ) → All IsScalar s → decode start (as_bytes s ++ rest) ≡ s ++ decode start rest
unfolding as_bytes
decode-as_bytes [] rest h = refl
decode-as_bytes (c ∷ s) rest h =
    ap (decode start) (append_assoc (encode_char c) (as_bytes s) rest)
    ∙ decode-encode_char c (as_bytes s ++ rest) h.0
    ∙ ap (◌∷◌ c) (decode-as_bytes s rest h.1)

-- Decoding what a text encodes to gives the text back, and then decodes what follows it.
pub from_utf8_lossy-as_bytes :
    (s rest : List ℕ)
    → All IsScalar s
    → from_utf8_lossy (as_bytes s ++ rest) ≡ s ++ from_utf8_lossy rest
unfolding from_utf8_lossy
from_utf8_lossy-as_bytes = decode-as_bytes

-- Two texts with the same bytes are the same text.
pub as_bytes-injective :
    (s t : List ℕ) → All IsScalar s → All IsScalar t → as_bytes s ≡ as_bytes t → s ≡ t
unfolding from_utf8_lossy
as_bytes-injective s t hs ht e =
    sym (append-nil s)
    ∙ sym (from_utf8_lossy-as_bytes s [] hs)
    ∙ ap (λ b. from_utf8_lossy (b ++ [])) e
    ∙ from_utf8_lossy-as_bytes t [] ht
    ∙ append-nil t

-- The decoder's state behind some bytes.
pub pending_after : Pending → List ℕ → Pending
pending_after p [] = p
pending_after p (b ∷ bs) = pending_after (decode_byte p b).1 bs

-- The bytes end no character in the middle.
abbrev pub IsWhole : List ℕ → Type 0
IsWhole bs = pending_after start bs ≡ start

decode-append :
    (p : Pending) (xs ys : List ℕ)
    → pending_after p xs ≡ start
    → decode p (xs ++ ys) ≡ decode p xs ++ decode start ys
unfolding pending_after decode decode_end
decode-append p [] ys h = cc h
decode-append p (x ∷ xs) ys h =
    ap (◌++◌ (decode_byte p x).0) (decode-append (decode_byte p x).1 xs ys h)
    ∙ sym (append_assoc (decode_byte p x).0 (decode (decode_byte p x).1 xs) (decode start ys))

-- A split between two characters does not change what is read.
pub from_utf8_lossy-append :
    (xs ys : List ℕ)
    → IsWhole xs
    → from_utf8_lossy (xs ++ ys) ≡ from_utf8_lossy xs ++ from_utf8_lossy ys
unfolding from_utf8_lossy
from_utf8_lossy-append = decode-append start

-- ASCII bytes end no character in the middle.
pub ascii-IsWhole : (bs : List ℕ) → All (λ b. b < 0x80) bs → IsWhole bs
unfolding pending_after decode_byte first_byte
ascii-IsWhole [] h = refl
ascii-IsWhole (b ∷ bs) (h, hs) =
    ap (λ p. pending_after p bs) {x = (decode_byte start b).1} {y = start} (ground arith)
    ∙ ascii-IsWhole bs hs
