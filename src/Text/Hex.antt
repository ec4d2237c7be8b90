-- ===== src/Text/Hex.antt =====
-- The texts of the crate `hex`: two small digits for each byte.
use sekisho.Base.{ℕ, ◌+◌, ◌/◌, ◌%◌, ltb, List, [], ◌∷◌, if◌then◌else◌}

abbrev pub digit : ℕ → ℕ
digit n = if ltb (n % 16) 10 then n % 16 + 48 else n % 16 + 87

abbrev pub hex : List ℕ → List ℕ
hex [] = []
hex (b ∷ bs) = digit (b / 16) ∷ digit b ∷ hex bs
