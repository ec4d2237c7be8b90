-- ===== src/Base/Bits.antt =====
-- The two masks of a LEB128 writer as arithmetic: the native operations have no laws at variables.
use Prim.Native.Nat.{
  ℕ, zero, suc, ◌+◌, ◌*◌, ◌/◌, ◌%◌, ◌≤◌, ◌<◌, min, bit_and, bit_or, digits, bit_and-bitwise,
}
use mathlib.Core.Path.{◌≡◌, refl, ap, ◌∙◌}
use mathlib.Core.Bool.{Bool, true, ◌&&◌}
use native.Mathlib.Omega.{arith}
use sekisho.Base.Tests.{◌==◌, ==_iff}

-- `bit_and` by its digits, where the fuel is any bound of the first number.
abbrev meet : ℕ → ℕ → ℕ → ℕ
meet = digits (λ _. zero) min

meet_fuel : (k l a b : ℕ) → a ≤ k → a ≤ l → meet k a b ≡ meet l a b
meet_fuel zero zero a b p q = refl
meet_fuel zero (suc l) zero b p q = refl
meet_fuel zero (suc l) (suc a) b p q = absurd (omega arith)
meet_fuel (suc k) zero zero b p q = refl
meet_fuel (suc k) zero (suc a) b p q = absurd (omega arith)
meet_fuel (suc k) (suc l) zero b p q = refl
meet_fuel (suc k) (suc l) (suc a) b p q =
    omega (arith, meet_fuel k l (suc a / 2) (b / 2) (omega arith) (omega arith))

bit_and_digit : (a b : ℕ) → bit_and a b ≡ bit_and (a / 2) (b / 2) * 2 + min (a % 2) (b % 2)
bit_and_digit zero b = omega (arith, bit_and-bitwise 0 b, bit_and-bitwise 0 (b / 2))
bit_and_digit (suc a) b = omega (
  arith,
  bit_and-bitwise (suc a) b,
  bit_and-bitwise (suc a / 2) (b / 2),
  meet_fuel a (suc a / 2) (suc a / 2) (b / 2) (omega arith) (omega arith),
)

no_digits : (k a : ℕ) → a ≤ k → bit_and a 0 ≡ 0
no_digits k zero h = refl
no_digits zero (suc a) h = absurd (omega arith)
no_digits (suc k) (suc a) h =
    omega (arith, bit_and_digit (suc a) 0, no_digits k (suc a / 2) (omega arith))

-- One low digit of a mask of ones.
one_more : (a m : ℕ) → bit_and a (m * 2 + 1) ≡ bit_and (a / 2) m * 2 + a % 2
one_more a m =
    bit_and_digit a (m * 2 + 1)
    ∙ ap (λ n. bit_and (a / 2) n * 2 + min (a % 2) ((m * 2 + 1) % 2)) {x = (m * 2 + 1) / 2} {y = m}
        (omega arith)
    ∙ ap (λ d. bit_and (a / 2) m * 2 + d) {x = min (a % 2) ((m * 2 + 1) % 2)} {y = a % 2}
        (omega arith)

no_ones : (a : ℕ) → bit_and a 0 ≡ 0
no_ones a = no_digits a a (omega arith)

bit_and_one_ones : (a : ℕ) → bit_and a 1 ≡ a % 2
bit_and_one_ones a = omega (arith, one_more a 0, no_ones (a / 2))

bit_and_two_ones : (a : ℕ) → bit_and a 3 ≡ a % 4
bit_and_two_ones a = omega (arith, one_more a 1, bit_and_one_ones (a / 2))

bit_and_three_ones : (a : ℕ) → bit_and a 7 ≡ a % 8
bit_and_three_ones a = omega (arith, one_more a 3, bit_and_two_ones (a / 2))

bit_and_four_ones : (a : ℕ) → bit_and a 15 ≡ a % 16
bit_and_four_ones a = omega (arith, one_more a 7, bit_and_three_ones (a / 2))

bit_and_five_ones : (a : ℕ) → bit_and a 31 ≡ a % 32
bit_and_five_ones a = omega (arith, one_more a 15, bit_and_four_ones (a / 2))

bit_and_six_ones : (a : ℕ) → bit_and a 63 ≡ a % 64
bit_and_six_ones a = omega (arith, one_more a 31, bit_and_five_ones (a / 2))

-- `value & 0x7f` keeps the seven low bits.
pub bit_and_seven_ones : (a : ℕ) → bit_and a 127 ≡ a % 128
bit_and_seven_ones a = omega (arith, one_more a 63, bit_and_six_ones (a / 2))

every_below : ℕ → (ℕ → Bool) → Bool
every_below zero p = true
every_below (suc n) p = p n && every_below n p

every_below_sound : (n : ℕ) (p : ℕ → Bool) (x : ℕ) → every_below n p ≡ true → x < n → p x ≡ true
unfolding every_below
every_below_sound zero p x h lt = absurd (omega arith)
every_below_sound (suc n) p x h lt = ground (arith, every_below_sound n p x)

top_bit_table : every_below 128 (λ x. bit_or x 0x80 == x + 128) ≡ true
unfolding every_below
top_bit_table = refl

-- `byte |= 0x80` on seven bits adds the top bit.
pub bit_or_top : (x : ℕ) → x < 128 → bit_or x 0x80 ≡ x + 128
bit_or_top x h = (==_iff (bit_or x 0x80) (x + 128)).0 (every_below_sound 128 _ x top_bit_table h)
