-- ===== src/Boot/Port.antt =====
-- main.rs: the port that the environment names.
use sekisho.Base.{
  ℕ, zero, suc, ◌+◌, ◌/◌, ◌%◌, ◌<◌, ◌≤◌, Bool-cases, inl, inr, [], ◌∷◌, ◌++◌, some, ok, ◌≡◌, refl,
  ◌∙◌, ltb, unwrap_or, arith,
}
use sekisho.Text.{Str, lit}
use sekisho.Text.Decimal.{digits_onto, decimal}
use sekisho.Boot.{parse_digits, parse_number, parse_u16, port_of, socket_addr, World}

parse_digits-digits_onto :
    (f n : ℕ) (out : Str)
    → n < f
    → n < 65536
    → parse_digits 0 (digits_onto f n out) ≡ parse_digits n out
unfolding parse_digits digits_onto
parse_digits-digits_onto zero n out h l = absurd (omega arith)
parse_digits-digits_onto (suc f) n out h l = elim (Bool-cases (ltb n 10)) [
  | inl b ↦ rw (b) (ground arith)
  | inr b ↦ rw (b) (
      parse_digits-digits_onto f (n / 10) ((b'0' + n % 10) ∷ out) (ground arith) (ground arith)
      ∙ ground arith)
]

-- Digits start with a digit.
digits_onto-head :
    (f n : ℕ) (out : Str)
    → (c : ℕ) × (s : Str) × (digits_onto (suc f) n out ≡ c ∷ s) × (b'0' ≤ c) × (c ≤ b'9')
unfolding digits_onto
digits_onto-head zero n out = (b'0' + n % 10, out, ground arith, omega arith, omega arith)
digits_onto-head (suc f) n out = elim (Bool-cases (ltb n 10)) [
  | inl b ↦ (b'0' + n % 10, out, rw b refl, omega arith, omega arith)
  | inr b ↦ rw (b) (digits_onto-head f (n / 10) ((b'0' + n % 10) ∷ out))
]

-- Every port that a program prints is read back.
parse_u16-decimal : (n : ℕ) → n < 65536 → parse_u16 (decimal n) ≡ some n
unfolding parse_u16 parse_number decimal
parse_u16-decimal n h =
    let (c, s, e, lo, hi) = digits_onto-head n n [] in
    let read : parse_digits 0 (digits_onto (suc n) n []) ≡ some n =
      parse_digits-digits_onto (suc n) n [] (omega arith) h in
    rw e (ground (arith, rw e at read))

-- A port that is written as a plain number is the port of the address: what is parsed is the host, a
-- colon and that number, whatever the host.
socket_addr-port :
    {C A : Type 0} (world : World C A) (port : ℕ) (address : A)
    → port < 65536
    → world.env (lit "PORT") ≡ some (decimal port)
    → world.parse_address
        (unwrap_or (lit "127.0.0.1") (world.env (lit "HOST")) ++ lit ":" ++ decimal port)
      ≡ ok address
    → socket_addr world ≡ ok address
unfolding socket_addr port_of
socket_addr-port world port address h p q =
    rw (socket_addr, p, port_of, parse_u16-decimal port h, q) refl
