-- ===== src/Text/Decimal.antt =====
-- `to_string` of an unsigned integer.
use sekisho.Base.{ℕ, zero, suc, ◌+◌, ◌/◌, ◌%◌, List, [], ◌∷◌, ltb, if◌then◌else◌}

-- The digits, on fuel, in front of those already written.
unfoldable pub digits_onto : ℕ → ℕ → List ℕ → List ℕ
digits_onto zero n out = out
digits_onto (suc f) n out =
    let written = (b'0' + n % 10) ∷ out in
    let rest = digits_onto f (n / 10) written in if ltb n 10 then written else rest

-- `n` has no more than `n + 1` digits.
unfoldable pub decimal : ℕ → List ℕ
unfolding digits_onto
decimal n = digits_onto (suc n) n []
