-- ===== src/Text.antt =====
-- Rust's `str` and `String` as lists of Unicode scalar values, with the methods that the enclave
-- calls: byte length, trimming, ASCII case, splitting and affixes.
pub mod Utf8
pub mod Decimal
pub mod Hex
use Prim.Native.Char.{code}
use Prim.Native.String.{String}
use sekisho.Base.{
  ℕ, suc, ◌+◌, Bool, true, false, ◌&&◌, ◌||◌, List, [], ◌∷◌, map, Option, none, some, leb, ◌==◌,
  if◌then◌else◌, same,
}

abbrev pub Str : Type 0
Str = List ℕ

abbrev pub Bytes : Type 0
Bytes = List ℕ

-- A literal.
abbrev pub lit : String → Str
lit String.[] = []
lit (String.◌∷◌ c s) = code c ∷ lit s

abbrev within : ℕ → ℕ → ℕ → Bool
within lo hi c = leb lo c && leb c hi

-- `char::is_whitespace`: the code points with the property White_Space.
unfoldable pub is_whitespace : ℕ → Bool
is_whitespace c =
    within 9 13 c
    || c == 0x20
    || c == 0x85
    || c == 0xa0
    || c == 0x1680
    || within 0x2000 0x200a c
    || c == 0x2028
    || c == 0x2029
    || c == 0x202f
    || c == 0x205f
    || c == 0x3000

-- `str::trim_start`.
unfoldable pub trim_start : Str → Str
unfolding is_whitespace
trim_start [] = []
trim_start (c ∷ s) = let rest = trim_start s in if is_whitespace c then rest else c ∷ s

-- A character in front of what `trim_end` keeps.
unfoldable pub keep_before : ℕ → Str → Str
unfolding is_whitespace
keep_before c [] = if is_whitespace c then [] else c ∷ []
keep_before c (d ∷ r) = c ∷ d ∷ r

-- `str::trim_end`: the text up to its last character that is no white space.
unfoldable pub trim_end : Str → Str
unfolding keep_before
trim_end [] = []
trim_end (c ∷ s) = keep_before c (trim_end s)

unfoldable pub trim : Str → Str
unfolding trim_start trim_end
trim s = trim_end (trim_start s)

-- `u8::to_ascii_lowercase`, and `str::to_ascii_lowercase`.
unfoldable pub to_lower : ℕ → ℕ
to_lower c = if within b'A' b'Z' c then c + 32 else c

abbrev pub to_ascii_lowercase : Str → Str
to_ascii_lowercase = map to_lower

abbrev pub eq_ignore_ascii_case : Str → Str → Bool
eq_ignore_ascii_case s t = same (to_ascii_lowercase s) (to_ascii_lowercase t)

-- `s.split_once(c)`: the text before the first `c` and the text behind it.
unfoldable pub split_once : ℕ → Str → Option (Str × Str)
split_once c [] = none
split_once c (d ∷ s) =
    let rest = split_once c s in
    if d == c then some ([], s) else elim rest [ none ↦ none | some (a, b) ↦ some (d ∷ a, b) ]

-- `s.starts_with(p)`.
unfoldable pub starts_with : Str → Str → Bool
starts_with s [] = true
starts_with [] (p ∷ ps) = false
starts_with (c ∷ s) (p ∷ ps) = c == p && starts_with s ps

-- `s.strip_prefix(p)`.
unfoldable pub strip_prefix : Str → Str → Option Str
strip_prefix s [] = some s
strip_prefix [] (p ∷ ps) = none
strip_prefix (c ∷ s) (p ∷ ps) = let rest = strip_prefix s ps in if c == p then rest else none

-- `s.strip_suffix(c)` at a character.
unfoldable pub strip_suffix : ℕ → Str → Option Str
strip_suffix c [] = none
strip_suffix c (d ∷ []) = if d == c then some [] else none
strip_suffix c (d ∷ e ∷ s) = elim (strip_suffix c (e ∷ s)) [ none ↦ none | some r ↦ some (d ∷ r) ]

-- `s.replace(c, "")`.
unfoldable pub remove_char : ℕ → Str → Str
remove_char c [] = []
remove_char c (d ∷ s) = let rest = remove_char c s in if d == c then rest else d ∷ rest

unfoldable pub onto_first : ℕ → List Str → List Str
onto_first d [] = (d ∷ []) ∷ []
onto_first d (piece ∷ pieces) = (d ∷ piece) ∷ pieces

-- `s.split(c)`: the pieces between the `c`s.
unfoldable pub split : ℕ → Str → List Str
unfolding onto_first
split c [] = [] ∷ []
split c (d ∷ s) = let rest = split c s in if d == c then [] ∷ rest else onto_first d rest
